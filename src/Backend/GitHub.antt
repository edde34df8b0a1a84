-- ===== src/Backend/GitHub.antt =====
-- backend/src/github/model.rs and the webhook of backend/src/github/serve.rs: the tables of GitHub's
-- owners, installations, repositories and commits, and the jobs of a pushed commit. What GitHub answers,
-- the check of a signature and the parser of YAML are parameters.
pub mod Webhook
mod Pushes
mod Events
mod Retries
mod Pages
mod Listings
mod Overview
mod Active
mod Tests
use Prim.Native.String.{String}
use cloud_devenv_sh.Base.{
  ℕ, none, some, Bool, Option, List, ◌∷◌, [], true, false, Map, ◌++◌, if◌then◌else◌, ◌==◌, ◌%◌,
  ◌&&◌, not, ◌^◌,
}
use cloud_devenv_sh.Backend.Dispatch.{Server, broadcast_job_available}
use cloud_devenv_sh.Base.Maps.{get, insert, update, contains_key}
use cloud_devenv_sh.Protocol.{Vm}
use cloud_devenv_sh.Backend.Jobs.{new_job}
use cloud_devenv_sh.Base.Texts.{Text}

pub record GithubOwner : Type 0 where
  pub id : ℕ
  pub login : String
  pub name : String
  pub instance_id : ℕ
  pub is_user : Bool

pub record GithubInstallation : Type 0 where
  pub id : ℕ
  pub owner_id : ℕ
  pub disabled : Bool

pub record GitHubRepo : Type 0 where
  pub id : ℕ
  pub name : String
  pub is_private : Bool
  pub owner_id : ℕ
  pub disabled : Bool
  pub generate_pr : Option String

pub record GitHubCommit : Type 0 where
  pub id : ℕ
  pub rev : String
  pub git_ref : Text
  pub repo_id : ℕ
  pub author : String
  pub message : String

pub record JobGitHub : Type 0 where
  pub job_id : ℕ
  pub commit_id : ℕ
  pub check_run_id : ℕ

-- The tables, each by its primary key, and the server that has the table of jobs. The rows of
-- `jobs_github` are in the order in which they were inserted.
pub record Hub : Type 0 where
  pub owners : Map GithubOwner
  pub installations : Map GithubInstallation
  pub repos : Map GitHubRepo
  pub commits : Map GitHubCommit
  pub jobs_github : List JobGitHub
  pub server : Server

-- How a handler ends; what it wrote before stays, since no transaction holds it together.
pub data Ending : Type 0 where
  ok : Ending
  error : Ending
  panicked : Ending

abbrev pub Step : Type 0
Step = Hub → Hub × Ending

-- `?`: what follows runs where nothing failed.
abbrev pub and_then : Hub × Ending → Step → Hub × Ending
and_then (s, Ending.ok) next = next s
and_then (s, Ending.error) next = (s, Ending.error)
and_then (s, Ending.panicked) next = (s, Ending.panicked)

unfoldable pub upsert_owner : GithubOwner → Step
upsert_owner owner s = (record s { owners = insert owner.id owner s.owners }, Ending.ok)

-- On a conflict only `disabled` is set; a new row refers to an owner.
unfoldable pub upsert_installation : GithubInstallation → Step
upsert_installation i s = elim (get i.id s.installations) [
  | some old ↦ (
    record s { installations = insert i.id (record old { disabled = i.disabled }) s.installations },
    Ending.ok,
  )
  | none ↦
      if contains_key i.owner_id s.owners
      then (record s { installations = insert i.id i s.installations }, Ending.ok)
      else (s, Ending.error)
]

unfoldable pub disable_installation : ℕ → Bool → Step
disable_installation id disabled s = (
  record s {
    installations =
        update id (λ (i : GithubInstallation). record i { disabled = disabled }) s.installations;
  },
  Ending.ok,
)

-- `get_for_owner_id`: whether the owner has an installation that is not disabled.
unfoldable pub has_installation : ℕ → Map GithubInstallation → Bool
has_installation owner_id [] = false
has_installation owner_id ((id, i) ∷ rest) =
    let later = has_installation owner_id rest in
    if i.owner_id == owner_id && not i.disabled then true else later

-- A column that is null in the new row is not set on a conflict.
abbrev pub keep_null : Option String → Option String → Option String
keep_null none old = old
keep_null (some new) old = some new

unfoldable pub upsert_repo : GitHubRepo → Step
upsert_repo r s = elim (get r.id s.repos) [
  | some old ↦
      if contains_key r.owner_id s.owners
      then (
        record s {
          repos =
              insert r.id (record r { generate_pr = keep_null r.generate_pr old.generate_pr })
                s.repos;
        },
        Ending.ok,
      )
      else (s, Ending.error)
  | none ↦
      if contains_key r.owner_id s.owners
      then (record s { repos = insert r.id r s.repos }, Ending.ok)
      else (s, Ending.error)
]

-- `create_from_webhook`: on a conflict the owner and `generate_pr` stay.
unfoldable pub create_repo_from_webhook : ℕ → String → Bool → ℕ → Step
create_repo_from_webhook id name is_private owner_id s = elim (get id s.repos) [
  | some old ↦ (
    record s {
      repos =
          insert id (record old { name = name; is_private = is_private; disabled = false }) s.repos;
    },
    Ending.ok,
  )
  | none ↦
      if contains_key owner_id s.owners
      then (
        record s {
          repos =
              insert id
                (record {
                  id = id;
                  name = name;
                  is_private = is_private;
                  owner_id = owner_id;
                  disabled = false;
                  generate_pr = none;
                })
                s.repos;
        },
        Ending.ok,
      )
      else (s, Ending.error)
]

unfoldable pub disable_repo : ℕ → Step
disable_repo id s = (
  record s { repos = update id (λ (r : GitHubRepo). record r { disabled = true }) s.repos },
  Ending.ok,
)

unfoldable pub create_commit : GitHubCommit → Step
create_commit c s =
    if contains_key c.repo_id s.repos
    then (record s { commits = insert c.id c s.commits }, Ending.ok)
    else (s, Ending.error)

-- What `create_job` draws and is answered: the id and the time of the job, and the check run that GitHub
-- creates, if it does.
pub record Draw : Type 0 where
  pub job_id : ℕ
  pub now : ℕ
  pub check_run : Option ℕ

-- The owner of a repository, where it has an installation that can be used.
unfoldable pub owner_of_repo : ℕ → Hub → Option ℕ
unfolding has_installation
owner_of_repo repo_id s = elim (get repo_id s.repos) [
  | none ↦ none
  | some repo ↦
      if contains_key repo.owner_id s.owners && has_installation repo.owner_id s.installations
      then some repo.owner_id
      else none
]

unfoldable pub create_job : Draw → ℕ → ℕ → Vm → Step
unfolding owner_of_repo broadcast_job_available
create_job d commit_id repo_id vm s =
    let (jobs, job) =
      new_job d.job_id d.now vm.platform (some (vm.cpu_count % 2 ^ 32))
        (some (vm.memory_size_mb % 2 ^ 64)) s.server.jobs in
    let t : Hub = record s { server = record s.server { jobs = jobs } } in
    elim (owner_of_repo repo_id s) [
      | none ↦ (t, Ending.error)
      | some owner ↦ elim d.check_run [
        | none ↦ (t, Ending.error)
        | some check_run_id ↦
            let link : JobGitHub = record {
              job_id = job.id;
              commit_id = commit_id;
              check_run_id = check_run_id;
            } in
            (
              record t {
                jobs_github = s.jobs_github ++ link ∷ [];
                server = broadcast_job_available job t.server;
              },
              Ending.ok,
            )
      ]
    ]

-- The loop over the machines; each machine has its draw.
unfoldable pub create_jobs : ℕ → ℕ → List (Draw × Vm) → Step
unfolding create_job
create_jobs commit_id repo_id [] s = (s, Ending.ok)
create_jobs commit_id repo_id ((d, vm) ∷ rest) s =
    and_then (create_job d commit_id repo_id vm s) (create_jobs commit_id repo_id rest)
