-- ===== src/Backend/GitHub/Webhook.antt =====
-- backend/src/github/serve.rs, `webhook`: what each event of GitHub does to the tables.
use Prim.Native.String.{String}
use text.Mathlib.Text.{◌==◌ as str_eq}
use cloud_devenv_sh.Base.{
  ℕ, suc, none, some, Bool, Option, List, ◌∷◌, [], true, false, Map, if◌then◌else◌, length,
}
use cloud_devenv_sh.Backend.GitHub.{
  Ending, Step, Hub, and_then, Draw, GitHubRepo, GithubOwner, create_repo_from_webhook,
  disable_repo, upsert_repo, create_commit, has_installation, upsert_owner, GitHubCommit,
  upsert_installation, create_jobs, disable_installation, GithubInstallation,
}
use cloud_devenv_sh.Base.Texts.{Text, trim_start_matches}
use cloud_devenv_sh.Protocol.{Vm}
use cloud_devenv_sh.Backend.CloudConfig.{Cloud, final_cloud_new, Parsed}
use cloud_devenv_sh.Base.Maps.{contains_key}
use cloud_devenv_sh.Base.Texts.Codes.{codes}

pub record Account : Type 0 where
  pub id : ℕ
  pub login : String
  pub is_user : Bool

pub record EventRepo : Type 0 where
  pub id : ℕ
  pub name : String
  pub is_private : Bool

-- The first commit of a push: the handle of its author, where it has one, and its message.
pub record PushCommit : Type 0 where
  pub username : Option String
  pub message : String

pub record Push : Type 0 where
  -- the repository's id and that of its owner, where the event has them
  pub repository : Option (ℕ × Option ℕ)
  pub git_ref : Text
  pub after : String
  pub first_commit : Option PushCommit

pub record PullRequest : Type 0 where
  pub git_ref : Text
  pub sha : String
  -- the head repository's id and the login of its owner, where the event has them
  pub repository : Option (ℕ × Option String)
  pub user : Option String
  pub title : Option String

pub data Payload : Type 0 where
  installation_created : List EventRepo → Payload
  installation_deleted installation_suspended installation_unsuspended : Payload
  -- an event of an installation whose action is none of these
  installation_other : Payload
  -- the repositories that were added, and the ids of those that were removed
  installation_repositories : List EventRepo → List ℕ → Payload
  push : Push → Payload
  synchronize : PullRequest → Payload
  -- what the handler ignores
  ignored : Payload

pub record Event : Type 0 where
  pub installation_id : ℕ
  -- with a full installation
  pub account : Option Account
  pub payload : Payload

-- What GitHub answers and what the handler draws: whether devenv.nix is there, if the request succeeds;
-- the text of devenv.yaml, if it is there and can be decoded; the commit's id, and the draw of each job.
pub record Answers : Type 0 where
  pub devenv_nix : Option Bool
  pub devenv_yaml : Option Text
  pub commit_id : ℕ
  pub draws : ℕ → Draw

abbrev pub text_or : Option String → String → String
text_or none d = d
text_or (some s) d = s

abbrev pub repo_of : ℕ → EventRepo → GitHubRepo
repo_of owner_id r = record {
  id = r.id;
  name = r.name;
  is_private = r.is_private;
  owner_id = owner_id;
  disabled = false;
  generate_pr = none;
}

unfoldable pub upsert_repos : ℕ → List EventRepo → Step
unfolding upsert_repo
upsert_repos owner_id [] s = (s, Ending.ok)
upsert_repos owner_id (r ∷ rs) s =
    and_then (upsert_repo (repo_of owner_id r) s) (upsert_repos owner_id rs)

unfoldable pub add_repos : ℕ → List EventRepo → Step
unfolding create_repo_from_webhook
add_repos owner_id [] s = (s, Ending.ok)
add_repos owner_id (r ∷ rs) s =
    and_then (create_repo_from_webhook r.id r.name r.is_private owner_id s) (add_repos owner_id rs)

unfoldable pub remove_repos : List ℕ → Step
unfolding disable_repo
remove_repos [] s = (s, Ending.ok)
remove_repos (id ∷ ids) s = and_then (disable_repo id s) (remove_repos ids)

-- Each machine with its draw.
abbrev pub with_draws : (ℕ → Draw) → ℕ → List Vm → List (Draw × Vm)
with_draws draws i [] = []
with_draws draws i (vm ∷ vms) = (draws i, vm) ∷ with_draws draws (suc i) vms

unfoldable pub owner_by_login : String → Map GithubOwner → Option ℕ
owner_by_login login [] = none
owner_by_login login ((id, o) ∷ rest) =
    let later = owner_by_login login rest in if str_eq o.login login then some o.id else later

module _ (from_str : Text → Option Cloud) where
  -- The commit is stored, and then its jobs are created by its devenv.yaml.
  unfoldable pub create_for_commit : Answers → GitHubCommit → Step
  unfolding create_commit final_cloud_new create_jobs
  create_for_commit a commit s = and_then (create_commit commit s) (λ (t : Hub).
      elim (final_cloud_new from_str (elim a.devenv_yaml [ none ↦ [] | some yaml ↦ yaml ])) [
        | Parsed.err e ↦ (t, Ending.error)
        | Parsed.ok vms ↦ create_jobs commit.id commit.repo_id (with_draws a.draws 0 vms) t
      ])

  -- What both events do once they know the owner: nothing without an installation or devenv.nix.
  unfoldable pub handle_commit : Answers → ℕ → GitHubCommit → Step
  unfolding create_for_commit has_installation
  handle_commit a owner_id commit s =
      if has_installation owner_id s.installations
      then elim a.devenv_nix [
        | none ↦ (s, Ending.error)
        | some there ↦ if there then create_for_commit a commit s else (s, Ending.ok)
      ]
      else (s, Ending.error)

  unfoldable pub handle_push : Answers → Push → Step
  unfolding handle_commit trim_start_matches
  handle_push a p s = elim p.repository [
    | none ↦ (s, Ending.panicked)
    | some repository ↦ elim repository.1 [
      | none ↦ (s, Ending.panicked)
      | some owner_id ↦
          if contains_key owner_id s.owners
          then handle_commit a owner_id
              (record {
                id = a.commit_id;
                rev = p.after;
                git_ref = trim_start_matches (codes "refs/heads/") (length p.git_ref) p.git_ref;
                repo_id = repository.0;
                author = elim p.first_commit [
                  | none ↦ "Unknown"
                  | some c ↦ text_or c.username "Unknown"
                ];
                message = elim p.first_commit [ none ↦ "No message provided" | some c ↦ c.message ];
              })
              s
          else (s, Ending.error)
    ]
  ]

  unfoldable pub handle_synchronize : Answers → PullRequest → Step
  unfolding handle_commit owner_by_login
  handle_synchronize a pr s = elim pr.repository [
    | none ↦ (s, Ending.error)
    | some repository ↦ elim repository.1 [
      | none ↦ (s, Ending.error)
      | some login ↦ elim (owner_by_login login s.owners) [
        | none ↦ (s, Ending.error)
        | some owner_id ↦
            handle_commit a owner_id
              (record {
                id = a.commit_id;
                rev = pr.sha;
                git_ref = pr.git_ref;
                repo_id = repository.0;
                author = text_or pr.user "Unknown";
                message = text_or pr.title "No message provided";
              })
              s
      ]
    ]
  ]

  unfoldable pub handle_event : Answers → Event → Step
  unfolding upsert_owner upsert_installation upsert_repos add_repos remove_repos
      disable_installation handle_push handle_synchronize
  handle_event a e s = elim e.payload [
    | Payload.installation_created repos ↦ elim e.account [
      | none ↦ (s, Ending.panicked)
      | some account ↦
          let owner : GithubOwner = record {
            id = account.id;
            login = account.login;
            name = account.login;
            instance_id = 1;
            is_user = account.is_user;
          } in
          let installation : GithubInstallation = record {
            id = e.installation_id;
            owner_id = account.id;
            disabled = false;
          } in
          and_then (upsert_owner owner s) (λ (t : Hub).
            and_then (upsert_installation installation t) (upsert_repos account.id repos))
    ]
    | Payload.installation_deleted ↦ elim e.account [
      | none ↦ (s, Ending.panicked)
      | some a ↦ disable_installation e.installation_id true s
    ]
    | Payload.installation_suspended ↦ elim e.account [
      | none ↦ (s, Ending.panicked)
      | some a ↦ disable_installation e.installation_id true s
    ]
    | Payload.installation_unsuspended ↦ elim e.account [
      | none ↦ (s, Ending.panicked)
      | some a ↦ disable_installation e.installation_id false s
    ]
    | Payload.installation_other ↦ elim e.account [
      | none ↦ (s, Ending.panicked)
      | some account ↦ (s, Ending.ok)
    ]
    | Payload.installation_repositories added removed ↦ elim e.account [
      | none ↦ (s, Ending.panicked)
      | some account ↦ and_then (add_repos account.id added s) (remove_repos removed)
    ]
    | Payload.push p ↦ handle_push a p s
    | Payload.synchronize pr ↦ handle_synchronize a pr s
    | Payload.ignored ↦ (s, Ending.ok)
  ]

  -- The request, with the secret of the configuration and the header of the signature; `verify` is
  -- `verify_webhook_signature`, and `parse` reads the event, with its installation, of the header and the
  -- body.
  unfoldable pub webhook {ℓ} :
      {Body : Type ℓ}
      → (Body → String → String → Bool)
      → (String → Body → Option Event)
      → Answers
      → Option String
      → String
      → String
      → Body
      → Step
  unfolding handle_event
  webhook verify parse a none signature event_name body s = (s, Ending.error)
  webhook verify parse a (some secret) signature event_name body s =
      if verify body signature secret
      then elim (parse event_name body) [ none ↦ (s, Ending.error) | some e ↦ handle_event a e s ]
      else (s, Ending.error)
