-- ===== src/Backend/Accounts.antt =====
-- backend/src/auth.rs, and the webhook of backend/src/zitadel/actions.rs: who may use the service. A JSON
-- value is serde_json's `Value`, a signature's check and the parser of bodies are parameters.
mod Grants
mod Profiles
mod Tests
use Prim.Native.String.{String}
use text.Mathlib.Text.{◌==◌ as str_eq, starts_with}
use cloud_devenv_sh.Base.{
  ℕ, none, some, Bool, Option, List, ◌∷◌, [], true, false, if◌then◌else◌, not, ◌&&◌, ◌||◌,
}
use cloud_devenv_sh.Base.Texts.{Text, text_eq, ends_with, to_lowercase}
use cloud_devenv_sh.Base.Texts.Codes.{codes}

mutual
  pub data Json : Type 0 where
    null : Json
    boolean : Bool → Json
    number : ℕ → Json
    string : String → Json
    array : Items → Json
    object : Fields → Json

  pub data Items : Type 0 where
    no_item : Items
    item : Json → Items → Items

  -- In the order of the object.
  pub data Fields : Type 0 where
    no_field : Fields
    field : String → Json → Fields → Fields

unfoldable pub find : String → Fields → Option Json
find name Fields.no_field = none
find name (Fields.field n v fs) = if str_eq n name then some v else find name fs

-- `Map::insert`: what stands under the name is replaced.
unfoldable pub set : String → Json → Fields → Fields
set name v Fields.no_field = Fields.field name v Fields.no_field
set name v (Fields.field n w fs) =
    let rest = set name v fs in if str_eq n name then Fields.field n v fs else Fields.field n w rest

-- `Value::get` with a name; none for what is no object.
unfoldable pub get_field : String → Json → Option Json
unfolding find
get_field name (Json.object fs) = find name fs
get_field name _ = none

abbrev pub as_array : Json → Option Items
as_array (Json.array vs) = some vs
as_array _ = none

abbrev pub as_str : Json → Option String
as_str (Json.string s) = some s
as_str _ = none

abbrev pub as_bool : Json → Option Bool
as_bool (Json.boolean b) = some b
as_bool _ = none

abbrev pub as_object : Json → Option Fields
as_object (Json.object fs) = some fs
as_object _ = none

abbrev pub and_then {ℓ κ} : {A : Type ℓ} {B : Type κ} → Option A → (A → Option B) → Option B
and_then none f = none
and_then (some a) f = f a

-- `handle_preuserinfo`: the two loops, each with its break.
unfoldable pub has_role : Items → Bool
has_role Items.no_item = false
has_role (Items.item role roles) =
    let rest = has_role roles in
    elim (as_str role) [ none ↦ rest | some s ↦ if str_eq s "beta_user" then true else rest ]

unfoldable pub has_grant : Items → Bool
unfolding has_role get_field
has_grant Items.no_item = false
has_grant (Items.item grant grants) =
    let rest = has_grant grants in
    elim (and_then (get_field "roles" grant) as_array) [
      | none ↦ rest
      | some roles ↦ if has_role roles then true else rest
    ]

-- `ActionResponse`, with what the two handlers add to it.
pub record ActionResponse : Type 0 where
  pub claims : List (String × String)
  pub metadata : List (String × String)

abbrev pub bool_to_string : Bool → String
bool_to_string true = "true"
bool_to_string false = "false"

unfoldable pub handle_preuserinfo : Json → ActionResponse
unfolding has_grant get_field
handle_preuserinfo webhook_data =
    let beta_access : Bool = elim (and_then (get_field "user_grants" webhook_data) as_array) [
      | none ↦ false
      | some grants ↦ has_grant grants
    ] in
    record {
      claims = ("beta_access", bool_to_string beta_access) ∷ [];
      metadata =
          ("beta_access_metadata", bool_to_string beta_access)
          ∷ ("processed_by", "preuserinfo_handler")
          ∷ [];
    }

-- `get_mut` of `name` in an object, where it is one and has the name.
unfoldable pub change_field : String → (Json → Json) → Json → Json
unfolding find set
change_field name f (Json.object fs) =
    Json.object (elim (find name fs) [ none ↦ fs | some v ↦ set name (f v) fs ])
change_field name f v = v

abbrev pub name_profile : String → Json → Json
name_profile name (Json.object fs) =
    Json.object (set "familyName" (Json.string "-") (set "givenName" (Json.string name) fs))
name_profile name v = v

unfoldable pub handle_retrieve_identity_provider_intent : Json → Json
unfolding get_field change_field
handle_retrieve_identity_provider_intent webhook_data = elim (get_field "response" webhook_data) [
  | none ↦ Json.object Fields.no_field
  | some response ↦
      let name = and_then (get_field "idpInformation" response) (λ (idp : Json).
        and_then (get_field "rawInformation" idp)
          (λ (raw : Json). and_then (get_field "name" raw) as_str)) in
      elim name [
        | none ↦ response
        | some n ↦ change_field "addHumanUser" (change_field "profile" (name_profile n)) response
      ]
]

-- The token's handlers of the trait `ActionHandler`.
unfoldable pub complement_token : ActionResponse
complement_token = record { claims = ("beta_access", bool_to_string false) ∷ []; metadata = [] }

unfoldable pub pre_userinfo_creation : ActionResponse
pre_userinfo_creation = record { claims = []; metadata = [] }

pub data WebhookError : Type 0 where
  invalid_signature invalid_body : WebhookError

-- The body of an answer with status 200, before its coding.
pub data Reply : Type 0 where
  action : ActionResponse → Reply
  value : Json → Reply
  empty : Reply
  rejected : WebhookError → Reply

abbrev pub text_field : String → Json → String
text_field name v = elim (and_then (get_field name v) as_str) [ none ↦ "" | some s ↦ s ]

-- Which handler runs, of a body that was verified and parsed.
unfoldable pub dispatch : Json → Reply
unfolding handle_preuserinfo handle_retrieve_identity_provider_intent
dispatch webhook_data =
    if not (str_eq (text_field "function" webhook_data) "")
    then if str_eq (text_field "function" webhook_data) "function/preuserinfo"
      then Reply.action (handle_preuserinfo webhook_data)
      else Reply.empty
    else if str_eq (text_field "fullMethod" webhook_data)
        "/zitadel.user.v2.UserService/RetrieveIdentityProviderIntent"
    then Reply.value (handle_retrieve_identity_provider_intent webhook_data)
    else Reply.empty

module _ {ℓ} {Body : Type ℓ} (verify : String → Body → String → Bool)
    (from_slice : Body → Option Json) where
  -- With the secret of the configuration and the header `zitadel-signature`, where they are there.
  unfoldable pub webhook_endpoint : Option String → Option String → Body → Reply
  unfolding dispatch
  webhook_endpoint none signature body = Reply.rejected WebhookError.invalid_signature
  webhook_endpoint (some secret) none body = Reply.rejected WebhookError.invalid_signature
  webhook_endpoint (some secret) (some signature) body =
      if verify secret body signature
      then elim (from_slice body) [
        | none ↦ Reply.rejected WebhookError.invalid_body
        | some webhook_data ↦ dispatch webhook_data
      ]
      else Reply.rejected WebhookError.invalid_signature

-- What `has_beta_access` reads of a user (`IntrospectedUser` of the crate zitadel); the roles by name.
pub record User : Type 0 where
  pub project_roles : List String
  pub org_roles : List String
  pub custom_claims : List (String × Json)
  pub metadata : List (String × String)

unfoldable pub lookup {ℓ} : {A : Type ℓ} → String → List (String × A) → Option A
lookup name [] = none
lookup name ((n, v) ∷ rest) = if str_eq n name then some v else lookup name rest

unfoldable pub contains : String → List String → Bool
contains name [] = false
contains name (n ∷ ns) = let rest = contains name ns in if str_eq n name then true else rest

abbrev pub is_true_text : String → Bool
is_true_text s = text_eq (to_lowercase (codes s)) (codes "true")

abbrev pub has_role_key : Json → Bool
has_role_key v = elim (as_object v) [
  | none ↦ false
  | some roles ↦ elim (find "beta_user" roles) [ none ↦ false | some r ↦ true ]
]

unfoldable pub claims_role : List (String × Json) → Bool
unfolding find
claims_role [] = false
claims_role ((name, v) ∷ rest) =
    let later = claims_role rest in
    if starts_with name "urn:zitadel:iam:org:project:"
      && ends_with (codes name) (codes ":roles")
      && has_role_key v
    then true
    else later

unfoldable pub claims_beta_access : List (String × Json) → Bool
unfolding lookup
claims_beta_access claims = elim (lookup "beta_access" claims) [
  | none ↦ false
  | some v ↦
      elim (as_bool v) [ none ↦ false | some b ↦ b ]
      || elim (as_str v) [ none ↦ false | some s ↦ is_true_text s ]
]

unfoldable pub has_beta_access : User → Bool
unfolding contains claims_role claims_beta_access lookup
has_beta_access user =
    contains "beta_user" user.project_roles
    || contains "beta_user" user.org_roles
    || claims_role user.custom_claims
    || claims_beta_access user.custom_claims
    || elim (lookup "beta_access" user.metadata) [ none ↦ false | some s ↦ is_true_text s ]

pub data Extracted : Type 0 where
  beta_user : User → Extracted
  -- 403, with the message
  forbidden : String → Extracted

-- `from_request_parts` of `BetaUser`, with what the extractor of the user gives.
unfoldable pub beta_user_from_request : Option User → Extracted
unfolding has_beta_access
beta_user_from_request none = Extracted.forbidden "Authentication required"
beta_user_from_request (some user) =
    if has_beta_access user
    then Extracted.beta_user user
    else Extracted.forbidden "Beta access required. Please contact support to get beta access."
