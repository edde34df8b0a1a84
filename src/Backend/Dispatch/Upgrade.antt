-- ===== src/Backend/Dispatch/Upgrade.antt =====
-- backend/src/runner/serve.rs, `handler` and the frame of `spawn_runner`: how a runner is connected, and
-- what it says of its platform.
use Prim.Native.String.{String}
use text.Mathlib.Text.{◌==◌ as str_eq}
use cloud_devenv_sh.Base.{
  List, ℕ, Bool, Option, none, ◌≡◌, if◌then◌else◌, refl, some, true, ◌∷◌, [], false, ◌∙◌, ==_refl,
  Option-cases, inl, inr, no_result, ap, some_inj, sym, subst,
}
use cloud_devenv_sh.Runner.Client.{
  request_headers, new_client, Os, Arch, Answer, Connected, target_platform,
}
use cloud_devenv_sh.Protocol.{platform_from_str, Platform, platform_to_string}
use cloud_devenv_sh.Backend.Dispatch.{register, unregister, Server, find_matching_platforms}
use cloud_devenv_sh.Base.Maps.{get, insert, get-insert}
use cloud_devenv_sh.Backend.Jobs.{platform_eq}

-- `none` when the header is missing; a value that is no text is not modelled.
unfoldable pub get_header : String → List (String × String) → Option String
get_header name [] = none
get_header name ((n, v) ∷ headers) =
    let rest = get_header name headers in if str_eq n name then some v else rest

unfoldable pub platform_of_request : List (String × String) → Platform
unfolding get_header platform_from_str
platform_of_request headers =
    let text : String = elim (get_header "X-Runner-Platform" headers) [
      | none ↦ "x86_64-linux"
      | some v ↦ v
    ] in
    elim (platform_from_str text) [ none ↦ Platform.x86_64_linux | some p ↦ p ]

-- `Runner::new`: `id` is drawn, and `inserts` says whether the database takes the row. Where it does not,
-- the answer is status 500 and no connection.
unfoldable pub handler : ℕ → Bool → List (String × String) → Server → Server × Bool
unfolding platform_of_request
handler id inserts headers s =
    if inserts
    then (record s { runners = insert id (platform_of_request headers) s.runners }, true)
    else (s, false)

-- What `spawn_runner` does before its loop and after it.
unfoldable pub spawn_runner : ℕ → (Server → Server) → Server → Server
unfolding register unregister
spawn_runner id loop s = unregister id (loop (register id s))

-- The platform of a runner, in the table and for those who ask for runners of a platform.
abbrev pub IsKnownAs : ℕ → Platform → Server → Type 0
IsKnownAs id platform s =
    (get id s.runners ≡ some platform)
    × ((find_matching_platforms (id ∷ []) platform s.runners) ≡ id ∷ [])

header_platform :
    (host key : String) (p : Platform) → platform_of_request (request_headers host key p) ≡ p
unfolding platform_of_request get_header request_headers platform_to_string platform_from_str
header_platform host key Platform.x86_64_linux = refl
header_platform host key Platform.aarch64_darwin = refl

handled :
    (id : ℕ) (headers : List (String × String)) (s : Server) (p : Platform)
    → platform_of_request headers ≡ p
    → IsKnownAs id p (handler id true headers s).0
unfolding handler find_matching_platforms
handled id headers s p e =
    let known : get id (insert id (platform_of_request headers) s.runners) ≡ some p =
      get-insert id id (platform_of_request headers) s.runners ∙ rw (==_refl id, e) refl in
    (known, matched p known)
  where
    matched :
        (q : Platform)
        → get id (insert id (platform_of_request headers) s.runners) ≡ some q
        → find_matching_platforms (id ∷ []) q (insert id (platform_of_request headers) s.runners)
          ≡ id ∷ []
    matched Platform.x86_64_linux h = rw (find_matching_platforms, h, platform_eq) refl
    matched Platform.aarch64_darwin h = rw (find_matching_platforms, h, platform_eq) refl

unsupported_client :
    (os : Os) (arch : Arch) (host key : String)
    → target_platform os arch ≡ none
    → (new_client os arch host key Answer.connects).1 ≡ none
unfolding new_client
unsupported_client os arch host key n = rw (new_client, n) refl

supported_client :
    (os : Os) (arch : Arch) (host key : String) (p : Platform)
    → target_platform os arch ≡ some p
    → (new_client os arch host key Answer.connects).1 ≡ some (request_headers host key p)
unfolding new_client
supported_client os arch host key p f = rw (new_client, f) refl

-- A runner that connects was compiled for a platform that is supported, and once the backend has its row,
-- that platform is what the table says of it, and by which it is found for the jobs of the platform.
pub connected-IsKnownAs :
    (os : Os) (arch : Arch) (host key : String) (headers : List (String × String)) (id : ℕ)
    (s t : Server)
    → new_client os arch host key Answer.connects ≡ (Connected.connected, some headers)
    → handler id true headers s ≡ (t, true)
    → (p : Platform) × (target_platform os arch ≡ some p) × IsKnownAs id p t
connected-IsKnownAs os arch host key headers id s t h e =
    elim (Option-cases (target_platform os arch)) [
      | inl n ↦
          elim (no_result (unsupported_client os arch host key n)
            (ap (λ (r : Connected × Option (List (String × String))). r.1) h)) [ ]
      | inr (p, f) ↦
          let sent : request_headers host key p ≡ headers = some_inj (
            sym (supported_client os arch host key p f)
            ∙ ap (λ (r : Connected × Option (List (String × String))). r.1) h) in
          (
            p,
            f,
            subst (IsKnownAs id p) (ap (λ (r : Server × Bool). r.0) e) (
                handled id headers s p
                  (ap platform_of_request (sym sent) ∙ header_platform host key p)),
          )
    ]
