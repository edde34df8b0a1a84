-- ===== src/Backend/GitHub/Pages.antt =====
-- backend/src/github/serve.rs and the queries of backend/src/github/model.rs that it uses: the pages that
-- list repositories, commits and their jobs. `none` is an error, such as a row that is not there.
use Prim.Native.String.{String}
use text.Mathlib.Text.{◌==◌ as str_eq}
use cloud_devenv_sh.Backend.GitHub.Webhook.{owner_by_login}
use cloud_devenv_sh.Backend.GitHub.{GitHubCommit, JobGitHub, Hub, GitHubRepo}
use cloud_devenv_sh.Base.Texts.{Text}
use cloud_devenv_sh.Backend.Jobs.{Job, Jobs}
use cloud_devenv_sh.Base.Maps.{get, insert, remove, update}
use mathlib.Core.List.{Permᴰ}
use cloud_devenv_sh.Protocol.{Platform}
use cloud_devenv_sh.Base.{
  List, ℕ, Bool, Map, filterb, ◌∷◌, Option, [], if◌then◌else◌, map, none, not, true, ◌==◌, false,
  ltb, some, ◌&&◌, ◌++◌, All, ◌||◌, ◌≡◌,
}

abbrev pub Pair : Type 0
Pair = JobGitHub × Job

-- `inner_join` of the links with their jobs.
unfoldable pub join_jobs : Jobs → List JobGitHub → List Pair
unfolding get
join_jobs jobs [] = []
join_jobs jobs (l ∷ ls) =
    let rest = join_jobs jobs ls in
    elim (get l.job_id jobs) [ none ↦ rest | some job ↦ (l, job) ∷ rest ]

abbrev pub is_linux : Platform → Bool
is_linux Platform.x86_64_linux = true
is_linux Platform.aarch64_darwin = false

-- A row may stand before another: darwin comes before linux, as the texts of the platforms do.
abbrev pub MayPrecede : Pair → Pair → Type 0
MayPrecede p q = (not (is_linux p.1.platform) || is_linux q.1.platform) ≡ true

abbrev pub ByPlatform : List Pair → Type 0
ByPlatform [] = Unit
ByPlatform (p ∷ ps) = All (MayPrecede p) ps × ByPlatform ps

-- What the database does for `order_by(platform)`: the order of the rows of one platform is its own.
pub record OrdersByPlatform (order_by_platform : List Pair → List Pair) : Type 0 where
  pub same_rows : (rows : List Pair) → Permᴰ (order_by_platform rows) rows
  pub by_platform : (rows : List Pair) → ByPlatform (order_by_platform rows)

abbrev pub swap : Pair → Job × JobGitHub
swap (github, job) = (job, github)

-- Whether the commit is one of the repository.
unfoldable pub in_repo : ℕ → Hub → ℕ → Bool
unfolding get
in_repo repo_id s commit_id = elim (get commit_id s.commits) [
  | none ↦ false
  | some c ↦ c.repo_id == repo_id
]

-- The order of the database is a parameter.
module _ (order_by_platform : List Pair → List Pair) where
  unfoldable pub get_jobs_by_commit_id : ℕ → Hub → List Pair
  unfolding join_jobs
  get_jobs_by_commit_id commit_id s =
      order_by_platform
        (filterb (λ (p : Pair). p.0.commit_id == commit_id) (join_jobs s.server.jobs s.jobs_github))

  unfoldable pub get_all_jobs_for_commit : ℕ → Hub → List (Job × JobGitHub)
  unfolding get_jobs_by_commit_id
  get_all_jobs_for_commit commit_id s = map swap (get_jobs_by_commit_id commit_id s)

  unfoldable pub get_jobs_for_repo : ℕ → Hub → List Pair
  unfolding join_jobs in_repo
  get_jobs_for_repo repo_id s = order_by_platform (
      filterb (λ (p : Pair). in_repo repo_id s p.0.commit_id)
        (join_jobs s.server.jobs s.jobs_github))

-- `order_by(id.desc())`.
unfoldable pub insert_by_id : GitHubCommit → List GitHubCommit → List GitHubCommit
insert_by_id c [] = c ∷ []
insert_by_id c (d ∷ cs) =
    let rest = insert_by_id c cs in if ltb d.id c.id then c ∷ d ∷ cs else d ∷ rest

unfoldable pub get_by_repo_ordered : ℕ → Map GitHubCommit → List GitHubCommit
unfolding insert_by_id
get_by_repo_ordered repo_id [] = []
get_by_repo_ordered repo_id ((id, c) ∷ rest) =
    let later = get_by_repo_ordered repo_id rest in
    if c.repo_id == repo_id then insert_by_id c later else later

-- The same, with `limit(1)`.
unfoldable pub get_latest_by_repo_id : ℕ → Map GitHubCommit → Option GitHubCommit
unfolding get_by_repo_ordered
get_latest_by_repo_id repo_id commits = elim (get_by_repo_ordered repo_id commits) [
  | [] ↦ none
  | c ∷ cs ↦ some c
]

unfoldable pub get_by_repo_and_rev : ℕ → String → Map GitHubCommit → Option GitHubCommit
get_by_repo_and_rev repo_id rev [] = none
get_by_repo_and_rev repo_id rev ((id, c) ∷ rest) =
    let later = get_by_repo_and_rev repo_id rev rest in
    if c.repo_id == repo_id && str_eq c.rev rev then some c else later

unfoldable pub get_by_owner_and_name : ℕ → String → Map GitHubRepo → Option GitHubRepo
get_by_owner_and_name owner_id name [] = none
get_by_owner_and_name owner_id name ((id, r) ∷ rest) =
    let later = get_by_owner_and_name owner_id name rest in
    if r.owner_id == owner_id && str_eq r.name name then some r else later

pub record JobResponse : Type 0 where
  pub job : Job
  pub github : JobGitHub
  pub commit : GitHubCommit
  pub log_url : String

pub record Commit : Type 0 where
  pub owner : String
  pub repo : String
  pub rev : String
  pub git_ref : Text
  pub author : String
  pub message : String
  pub jobs : List JobResponse

abbrev pub commit_of : String → String → GitHubCommit → List JobResponse → Commit
commit_of owner repo c jobs = record {
  owner = owner;
  repo = repo;
  rev = c.rev;
  git_ref = c.git_ref;
  author = c.author;
  message = c.message;
  jobs = jobs;
}

-- `entry(key).or_insert_with(Vec::new).push(x)`.
unfoldable pub push_entry {ℓ} : {V : Type ℓ} → ℕ → V → Map (List V) → Map (List V)
unfolding get insert update
push_entry key x m = elim (get key m) [
  | none ↦ insert key (x ∷ []) m
  | some xs ↦ update key (λ ys. ys ++ x ∷ []) m
]

-- `remove(key).unwrap_or_default()`, without the removal.
unfoldable pub get_or_default {ℓ} : {V : Type ℓ} → ℕ → Map (List V) → List V
unfolding get
get_or_default key m = elim (get key m) [ none ↦ [] | some xs ↦ xs ]

pub record RepoJobs : Type 0 where
  pub owner : String
  pub repo : String
  pub commits : List Commit

pub data Page : Type 0 where
  page : RepoJobs → Page
  -- an error, and the `unwrap` of a commit that is not there
  failed panicked : Page

-- The owner and the repository of a page.
unfoldable pub find_repo : String → String → Hub → Option GitHubRepo
unfolding owner_by_login get_by_owner_and_name
find_repo owner_login repo_name s = elim (owner_by_login owner_login s.owners) [
  | none ↦ none
  | some owner_id ↦ get_by_owner_and_name owner_id repo_name s.repos
]

-- `log_url`: the address of the logger, a slash and the job's id.
module _ (log_url : ℕ → String) where
  abbrev pub response : GitHubCommit → Pair → JobResponse
  response c (github, job) = record {
    job = job;
    github = github;
    commit = c;
    log_url = log_url job.id;
  }

  -- The map from commits to their jobs, begun at `m`; `none` is the panic.
  unfoldable pub group_jobs :
      Map GitHubCommit → List Pair → Map (List JobResponse) → Option (Map (List JobResponse))
  unfolding push_entry get
  group_jobs commits [] m = some m
  group_jobs commits (p ∷ ps) m = elim (get p.0.commit_id commits) [
    | none ↦ none
    | some c ↦ group_jobs commits ps (push_entry p.0.commit_id (response c p) m)
  ]

  -- The commits with their jobs, which are taken out of the map.
  unfoldable pub take_jobs :
      String → String → List GitHubCommit → Map (List JobResponse) → List Commit
  unfolding get_or_default remove
  take_jobs owner repo [] m = []
  take_jobs owner repo (c ∷ cs) m =
      commit_of owner repo c (get_or_default c.id m) ∷ take_jobs owner repo cs (remove c.id m)

module _ (order_by_platform : List Pair → List Pair) (log_url : ℕ → String) where
  unfoldable pub get_rev : String → String → String → Hub → Option Commit
  unfolding find_repo get_by_repo_and_rev get_jobs_by_commit_id
  get_rev owner_login repo_name rev s = elim (find_repo owner_login repo_name s) [
    | none ↦ none
    | some repo ↦ elim (get_by_repo_and_rev repo.id rev s.commits) [
      | none ↦ none
      | some c ↦ some (
          commit_of owner_login repo_name c (
            map (λ (p : Pair). response log_url c p)
              (get_jobs_by_commit_id order_by_platform c.id s)))
    ]
  ]

  unfoldable pub get_repo_jobs : String → String → Hub → Page
  unfolding find_repo group_jobs take_jobs get_jobs_for_repo get_by_repo_ordered
  get_repo_jobs owner_login repo_name s = elim (find_repo owner_login repo_name s) [
    | none ↦ Page.failed
    | some repo ↦
        elim (group_jobs log_url s.commits (get_jobs_for_repo order_by_platform repo.id s) []) [
          | none ↦ Page.panicked
          | some m ↦ Page.page (record {
            owner = owner_login;
            repo = repo_name;
            commits =
                take_jobs log_url owner_login repo_name (get_by_repo_ordered repo.id s.commits) m;
          })
        ]
  ]
