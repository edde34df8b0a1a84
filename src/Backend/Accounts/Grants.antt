-- ===== src/Backend/Accounts/Grants.antt =====
-- backend/src/zitadel/actions.rs, `handle_preuserinfo`, and backend/src/auth.rs: a grant of the role is
-- what admits a user.
use text.Mathlib.TextEquality.{eq_iff}
use text.Mathlib.Text.{◌==◌ as str_eq}
use mathlib.Core.Bool.{false≢true}
use cloud_devenv_sh.Base.{
  none, some, Bool, List, true, false, ◌≡◌, ◌↔◌, inl, ◌⊎◌, inr, Bool-cases, ◌∙◌, refl, ap, subst,
  sym, arith, Option-cases, if◌then◌else◌, some_inj, ◌||◌,
}
use cloud_devenv_sh.Backend.Accounts.{
  has_role, Items, Json, get_field, str_eq, and_then, handle_preuserinfo, has_grant, as_array,
  beta_user_from_request, has_beta_access, lookup, User, String, contains, claims_role, Extracted,
  bool_to_string, claims_beta_access, is_true_text,
}
use cloud_devenv_sh.Base.Texts.{text_eq, to_lowercase}

pub data HasRole : Items → Type 0 where
  this_role : (roles : Items) → HasRole (Items.item (Json.string "beta_user") roles)
  later_role : (role : Json) {roles : Items} → HasRole roles → HasRole (Items.item role roles)

-- Some grant of the list has the role in its list `roles`.
pub data HasGrant : Items → Type 0 where
  this_grant :
      (grant : Json) (roles grants : Items)
      → get_field "roles" grant ≡ some (Json.array roles)
      → HasRole roles
      → HasGrant (Items.item grant grants)
  later_grant :
      (grant : Json) {grants : Items} → HasGrant grants → HasGrant (Items.item grant grants)

role-cases :
    (role : Json)
    → (role ≡ Json.string "beta_user")
      ⊎ ((roles : Items) → has_role (Items.item role roles) ≡ has_role roles)
unfolding has_role
role-cases Json.null = inr (λ (roles : Items). refl)
role-cases (Json.boolean b) = inr (λ (roles : Items). refl)
role-cases (Json.number n) = inr (λ (roles : Items). refl)
role-cases (Json.array vs) = inr (λ (roles : Items). refl)
role-cases (Json.object fs) = inr (λ (roles : Items). refl)
role-cases (Json.string s) = elim (Bool-cases (str_eq s "beta_user")) [
  | inl same ↦ inl (ap Json.string ((eq_iff s "beta_user").0 same))
  | inr other ↦ inr (λ (roles : Items). rw (has_role, other) refl)
]

has_role-HasRole : (roles : Items) → has_role roles ≡ true → HasRole roles
unfolding has_role
has_role-HasRole Items.no_item h = elim (false≢true h) [ ]
has_role-HasRole (Items.item role roles) h = elim (role-cases role) [
  | inl same ↦
      subst (λ (r : Json). HasRole (Items.item r roles)) (sym same) (HasRole.this_role roles)
  | inr skipped ↦ HasRole.later_role role (has_role-HasRole roles (sym (skipped roles) ∙ h))
]

HasRole-has_role : {roles : Items} → HasRole roles → has_role roles ≡ true
unfolding has_role
HasRole-has_role (HasRole.this_role roles) = refl
HasRole-has_role (HasRole.later_role role {roles} h) = elim (role-cases role) [
  | inl same ↦ rw same refl
  | inr skipped ↦ skipped roles ∙ HasRole-has_role h
]

module _ (grant : Json) (grants : Items) where
  no_roles :
      and_then (get_field "roles" grant) as_array ≡ none
      → has_grant (Items.item grant grants) ≡ has_grant grants
  unfolding has_grant
  no_roles e = rw (has_grant, e) refl

  some_roles :
      (roles : Items)
      → and_then (get_field "roles" grant) as_array ≡ some roles
      → has_grant (Items.item grant grants) ≡ (if has_role roles then true else has_grant grants)
  unfolding has_grant
  some_roles roles e = rw (has_grant, e) refl

  found_role :
      (roles : Items)
      → get_field "roles" grant ≡ some (Json.array roles)
      → has_role roles ≡ true
      → has_grant (Items.item grant grants) ≡ true
  unfolding has_grant
  found_role roles e h = rw (has_grant, e, h) refl

array_field :
    (name : String) (v : Json) (vs : Items)
    → and_then (get_field name v) as_array ≡ some vs
    → get_field name v ≡ some (Json.array vs)
array_field name v vs h = ground (arith, h)

has_grant-HasGrant : (grants : Items) → has_grant grants ≡ true → HasGrant grants
unfolding has_grant
has_grant-HasGrant Items.no_item h = elim (false≢true h) [ ]
has_grant-HasGrant (Items.item grant grants) h =
    elim (Option-cases (and_then (get_field "roles" grant) as_array)) [
      | inl e ↦
          HasGrant.later_grant grant (has_grant-HasGrant grants (sym (no_roles grant grants e) ∙ h))
      | inr (roles, e) ↦ elim (Bool-cases (has_role roles)) [
        | inl found ↦
            HasGrant.this_grant grant roles grants (array_field "roles" grant roles e)
              (has_role-HasRole roles found)
        | inr missing ↦ HasGrant.later_grant grant (
            has_grant-HasGrant grants (ground (arith, some_roles grant grants roles e, missing, h)))
      ]
    ]

HasGrant-has_grant : {grants : Items} → HasGrant grants → has_grant grants ≡ true
HasGrant-has_grant (HasGrant.this_grant grant roles grants e h) =
    found_role grant grants roles e (HasRole-has_role h)
HasGrant-has_grant (HasGrant.later_grant grant {grants} h) =
    elim (Option-cases (and_then (get_field "roles" grant) as_array)) [
      | inl e ↦ no_roles grant grants e ∙ HasGrant-has_grant h
      | inr (roles, e) ↦ ground (arith, some_roles grant grants roles e, HasGrant-has_grant h)
    ]

-- The request names a list of grants of its user, and one of them has the role.
pub record IsGranted (webhook_data : Json) : Type 0 where
  pub grants : Items
  pub user_grants : get_field "user_grants" webhook_data ≡ some (Json.array grants)
  pub granted : HasGrant grants

claim_of : Json → Bool
claim_of webhook_data = elim (and_then (get_field "user_grants" webhook_data) as_array) [
  | none ↦ false
  | some grants ↦ has_grant grants
]

claim_of-IsGranted : (webhook_data : Json) → (claim_of webhook_data ≡ true) ↔ IsGranted webhook_data
unfolding claim_of
claim_of-IsGranted webhook_data = (forth, back)
  where
    forth : claim_of webhook_data ≡ true → IsGranted webhook_data
    forth h = elim (Option-cases (and_then (get_field "user_grants" webhook_data) as_array)) [
      | inl e ↦ elim (false≢true (sym (rw (claim_of, e) refl) ∙ h)) [ ]
      | inr (grants, e) ↦ record {
        grants = grants;
        user_grants = array_field "user_grants" webhook_data grants e;
        granted = has_grant-HasGrant grants (sym (rw (claim_of, e) refl) ∙ h);
      }
    ]

    back : IsGranted webhook_data → claim_of webhook_data ≡ true
    back g = rw (claim_of, g.user_grants, HasGrant-has_grant g.granted) refl

is_true_text-bool : (b : Bool) → is_true_text (bool_to_string b) ≡ b
unfolding text_eq to_lowercase
is_true_text-bool true = refl
is_true_text-bool false = refl

or_false : (b : Bool) → b || false ≡ b
or_false true = refl
or_false false = refl

claims_beta_access-text :
    (claims : List (String × Json)) (s : String)
    → lookup "beta_access" claims ≡ some (Json.string s)
    → claims_beta_access claims ≡ is_true_text s
unfolding claims_beta_access
claims_beta_access-text claims s h = rw (claims_beta_access, h) refl

preuserinfo-claim :
    (webhook_data : Json)
    → lookup "beta_access" (handle_preuserinfo webhook_data).claims
      ≡ some (bool_to_string (claim_of webhook_data))
unfolding claim_of handle_preuserinfo lookup
preuserinfo-claim webhook_data = refl

-- Where the only thing that speaks for a user is the claim `beta_access`, as the answer to the request
-- of Zitadel gives it, the user is admitted just where the request has a grant of the role.
pub preuserinfo_admits :
    (webhook_data : Json) (user : User) (claim : String)
    → contains "beta_user" user.project_roles ≡ false
    → contains "beta_user" user.org_roles ≡ false
    → claims_role user.custom_claims ≡ false
    → lookup "beta_access" user.metadata ≡ none
    → lookup "beta_access" (handle_preuserinfo webhook_data).claims ≡ some claim
    → lookup "beta_access" user.custom_claims ≡ some (Json.string claim)
    → (beta_user_from_request (some user) ≡ Extracted.beta_user user) ↔ IsGranted webhook_data
unfolding beta_user_from_request has_beta_access
preuserinfo_admits webhook_data user claim p o c m answered claimed = (forth, back)
  where
    said : bool_to_string (claim_of webhook_data) ≡ claim
    said = some_inj (sym (preuserinfo-claim webhook_data) ∙ answered)

    access : has_beta_access user ≡ claim_of webhook_data
    access =
        rw
          (
            has_beta_access,
            p,
            o,
            c,
            m,
            claims_beta_access-text user.custom_claims claim claimed,
            sym said,
            is_true_text-bool (claim_of webhook_data),
          )
          (or_false (claim_of webhook_data))

    forth : beta_user_from_request (some user) ≡ Extracted.beta_user user → IsGranted webhook_data
    forth h = (claim_of-IsGranted webhook_data).0 (ground (arith, access, h))

    back : IsGranted webhook_data → beta_user_from_request (some user) ≡ Extracted.beta_user user
    back g = ground (arith, access, (claim_of-IsGranted webhook_data).1 g)
