-- ===== src/Backend/Accounts/Profiles.antt =====
-- backend/src/zitadel/actions.rs: who may call the webhook, and the profile of a new user from GitHub.
use mathlib.Core.Bool.{false≢true}
use text.Mathlib.TextEquality.{eq_iff}
use text.Mathlib.Text.{◌==◌ as str_eq}
use cloud_devenv_sh.Base.{
  none, some, Bool, Option, true, false, ◌≡◌, refl, if◌then◌else◌, Bool-cases, ◌⊎◌, inl, inr, subst,
  sym,
}
use cloud_devenv_sh.Backend.Accounts.{
  find, webhook_endpoint, String, set, Json, Fields, Reply, WebhookError, and_then,
  handle_retrieve_identity_provider_intent, get_field, change_field,
}

str_eq_refl : (s : String) → str_eq s s ≡ true
str_eq_refl s = (eq_iff s s).1 refl

if_same :
    (b : Bool) (x y z : Option Json)
    → (if b then x else y) ≡ (if b then x else (if b then z else y))
if_same true x y z = refl
if_same false x y z = refl

if_swap :
    (a b : Bool) (x y z : Option Json)
    → (b ≡ true → a ≡ false)
    → (if a then x else (if b then y else z)) ≡ (if b then y else (if a then x else z))
if_swap true true x y z h = elim (false≢true (sym (h refl))) [ ]
if_swap true false x y z h = refl
if_swap false b x y z h = refl

pub find-set :
    (name other : String) (v : Json) (fs : Fields)
    → find other (set name v fs) ≡ (if str_eq name other then some v else find other fs)
unfolding find set
find-set name other v Fields.no_field = refl
find-set name other v (Fields.field n w fs) = elim (Bool-cases (str_eq n name)) [
  | inl same ↦
      rw (same, (eq_iff n name).0 same)
        (if_same (str_eq name other) (some v) (find other fs) (some w))
  | inr different ↦
      rw (different, find, find-set name other v fs)
        (if_swap (str_eq n other) (str_eq name other) (some w) (some v) (find other fs)
          (apart different))
]
  where
    apart : str_eq n name ≡ false → str_eq name other ≡ true → str_eq n other ≡ false
    apart different e =
        subst (λ (s : String). str_eq n s ≡ false) ((eq_iff name other).0 e) different

-- The field `name` of an object inside an object.
abbrev pub inner : String → String → Json → Option Json
inner outer name v = and_then (get_field outer v) (get_field name)

abbrev pub named : String → Fields → Fields
named github_name profile =
    set "familyName" (Json.string "-") (set "givenName" (Json.string github_name) profile)

module _ (webhook_data : Json) (profile human raw idp fields : Fields) (github_name : String)
    (response : get_field "response" webhook_data ≡ some (Json.object fields))
    (from_idp : find "idpInformation" fields ≡ some (Json.object idp))
    (from_raw : find "rawInformation" idp ≡ some (Json.object raw))
    (from_name : find "name" raw ≡ some (Json.string github_name))
    (new_user : find "addHumanUser" fields ≡ some (Json.object human))
    (has_profile : find "profile" human ≡ some (Json.object profile)) where
  answer :
      handle_retrieve_identity_provider_intent webhook_data
      ≡ Json.object (
          set "addHumanUser"
            (Json.object (set "profile" (Json.object (named github_name profile)) human))
            fields)
  unfolding handle_retrieve_identity_provider_intent change_field get_field
  answer =
      rw
        (
          handle_retrieve_identity_provider_intent, response, from_idp, from_raw, from_name,
          new_user, has_profile,
        )
        refl

  -- What the answer to a new GitHub user holds, where the request's response has the name that GitHub
  -- gives and a profile for the new user: the profile in the answer has that name as its given name, `-`
  -- as its family name, and all its other fields as they were.
  pub profile_named :
      (key : String)
      → and_then
          (inner "addHumanUser" "profile" (handle_retrieve_identity_provider_intent webhook_data))
          (get_field key)
        ≡ (if str_eq "familyName" key
            then some (Json.string "-")
            else if str_eq "givenName" key
            then some (Json.string github_name)
            else find key profile)
  unfolding get_field
  profile_named key =
      rw
        (
          answer,
          find-set "addHumanUser" "addHumanUser",
          find-set "profile" "profile",
          find-set "familyName" key,
          find-set "givenName" key,
        )
        refl

-- Whatever the webhook answers of a body it has read, it has the secret and the header of the signature,
-- and the signature is that of the body; without it the answer is a refusal.
pub webhook_endpoint-IsSigned :
    {Body : Type 0} (verify : String → Body → String → Bool) (from_slice : Body → Option Json)
    (secret signature : Option String) (body : Body)
    → (webhook_endpoint verify from_slice secret signature body
        ≡ Reply.rejected WebhookError.invalid_signature)
      ⊎ ((s : String) × (g : String) × (secret ≡ some s)
          × (signature ≡ some g)
          × (verify s body g ≡ true))
unfolding webhook_endpoint
webhook_endpoint-IsSigned verify from_slice none signature body = inl refl
webhook_endpoint-IsSigned verify from_slice (some s) none body = inl refl
webhook_endpoint-IsSigned verify from_slice (some s) (some g) body =
    elim (Bool-cases (verify s body g)) [
      | inl good ↦ inr (s, g, refl, refl, good)
      | inr bad ↦ inl (rw bad refl)
    ]
