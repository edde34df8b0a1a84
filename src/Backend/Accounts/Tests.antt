-- ===== src/Backend/Accounts/Tests.antt =====
-- Runs of backend/src/auth.rs and backend/src/zitadel/actions.rs on small requests.
use cloud_devenv_sh.Base.{some, ◌∷◌, [], ◌≡◌, ◌↔◌, refl}
use cloud_devenv_sh.Backend.Accounts.{
  User, get_field, handle_preuserinfo, Fields, Json, String, contains, find, Items, claims_role,
  lookup, has_grant, has_role, beta_user_from_request, Extracted,
}
use cloud_devenv_sh.Backend.Accounts.Grants.{IsGranted, preuserinfo_admits}

abbrev one : String → Json → Fields
one name v = Fields.field name v Fields.no_field

abbrev grant : Json
grant = Json.object (one "roles" (Json.array (Items.item (Json.string "beta_user") Items.no_item)))

abbrev granting : Json
granting = Json.object (one "user_grants" (Json.array (Items.item grant Items.no_item)))

abbrev claimed : User
claimed = record {
  project_roles = "owner" ∷ [];
  org_roles = [];
  custom_claims = ("beta_access", Json.string "true") ∷ [];
  metadata = ("processed_by", "preuserinfo_handler") ∷ [];
}

preuserinfo_admits_example :
    (beta_user_from_request (some claimed) ≡ Extracted.beta_user claimed) ↔ IsGranted granting
unfolding handle_preuserinfo contains claims_role lookup has_grant has_role get_field find
preuserinfo_admits_example =
    preuserinfo_admits granting claimed "true" refl refl refl refl refl refl

abbrev idp : Fields
idp = one "rawInformation" (Json.object (one "name" (Json.string "Ada")))

abbrev human : Fields
human = one "profile" (Json.object (one "nickName" (Json.string "ada")))

abbrev fields : Fields
fields = Fields.field "idpInformation" (Json.object idp) (one "addHumanUser" (Json.object human))
