-- ===== src/Backend/GitHub/Overview.antt =====
-- backend/src/github/serve.rs, `get_repos`: the repositories of all owners, each with its latest commit.
use Prim.Native.String.{String}
use cloud_devenv_sh.Base.{
  ◌∷◌, [], Map, ℕ, Bool, List, Option, map, none, some, if◌then◌else◌, ◌++◌, ◌==◌, ◌&&◌, not,
}
use cloud_devenv_sh.Backend.GitHub.{
  GithubOwner, GitHubCommit, GitHubRepo, GithubInstallation, Hub, JobGitHub,
}
use cloud_devenv_sh.Base.Maps.{get, insert, update, values}
use cloud_devenv_sh.Backend.GitHub.Pages.{
  get_latest_by_repo_id, get_all_jobs_for_commit, Commit, JobResponse, response, commit_of, Pair,
}
use cloud_devenv_sh.Backend.Jobs.{Job}

-- `inner_join` of an owner with the installations and the repositories that are not disabled: a row for
-- each pair of the two.
unfoldable pub owner_repos : GithubOwner → Map GitHubRepo → List (GithubOwner × GitHubRepo)
owner_repos owner [] = []
owner_repos owner ((id, r) ∷ rest) =
    let later = owner_repos owner rest in
    if r.owner_id == owner.id && not r.disabled then (owner, r) ∷ later else later

unfoldable pub owner_rows :
    GithubOwner → Map GithubInstallation → Map GitHubRepo → List (GithubOwner × GitHubRepo)
unfolding owner_repos
owner_rows owner [] repos = []
owner_rows owner ((id, i) ∷ rest) repos =
    let later = owner_rows owner rest repos in
    if i.owner_id == owner.id && not i.disabled then owner_repos owner repos ++ later else later

unfoldable pub get_owners_with_repos :
    Map GithubOwner → Map GithubInstallation → Map GitHubRepo → List (GithubOwner × GitHubRepo)
unfolding owner_rows
get_owners_with_repos [] installations repos = []
get_owners_with_repos ((id, o) ∷ rest) installations repos =
    owner_rows o installations repos ++ get_owners_with_repos rest installations repos

-- The repositories grouped by their owner, who is kept from the first row.
unfoldable pub group_repos :
    List (GithubOwner × GitHubRepo)
    → Map (GithubOwner × List GitHubRepo)
    → Map (GithubOwner × List GitHubRepo)
unfolding get insert update
group_repos [] m = m
group_repos ((owner, repo) ∷ rows) m = group_repos rows (elim (get owner.id m) [
  | none ↦ insert owner.id (owner, repo ∷ []) m
  | some entry ↦ update owner.id (λ (e : GithubOwner × List GitHubRepo). (e.0, e.1 ++ repo ∷ [])) m
])

pub record RepoInfo : Type 0 where
  pub id : ℕ
  pub name : String
  pub is_private : Bool
  pub generate_pr : Option String
  pub latest_commit : Option Commit

pub record OwnerWithRepos : Type 0 where
  pub id : ℕ
  pub login : String
  pub name : String
  pub is_user : Bool
  pub repos : List RepoInfo

module _ (log_url : ℕ → String) where
  abbrev pub job_response : GitHubCommit → Job × JobGitHub → JobResponse
  job_response c (job, github) = response log_url c (github, job)

-- The order of the database is a parameter.
module _ (order_by_platform : List Pair → List Pair) (log_url : ℕ → String) where
  unfoldable pub latest_commit : Hub → GithubOwner → GitHubRepo → Option Commit
  unfolding get_latest_by_repo_id get_all_jobs_for_commit
  latest_commit s owner repo = elim (get_latest_by_repo_id repo.id s.commits) [
    | none ↦ none
    | some c ↦ some (
        commit_of owner.login repo.name c (
          map (λ (p : Job × JobGitHub). job_response log_url c p)
            (get_all_jobs_for_commit order_by_platform c.id s)))
  ]

  unfoldable pub repo_info : Hub → GithubOwner → GitHubRepo → RepoInfo
  unfolding latest_commit
  repo_info s owner repo = record {
    id = repo.id;
    name = repo.name;
    is_private = repo.is_private;
    generate_pr = repo.generate_pr;
    latest_commit = latest_commit s owner repo;
  }

  -- An owner's entry of the map.
  unfoldable pub owner_info : Hub → GithubOwner × List GitHubRepo → OwnerWithRepos
  unfolding repo_info
  owner_info s (owner, repos) = record {
    id = owner.id;
    login = owner.login;
    name = owner.name;
    is_user = owner.is_user;
    repos = map (λ (r : GitHubRepo). repo_info s owner r) repos;
  }

  -- In the order of the map's entries, which the program leaves open.
  unfoldable pub get_repos : Hub → List OwnerWithRepos
  unfolding get_owners_with_repos group_repos owner_info
  get_repos s =
      map (λ (e : GithubOwner × List GitHubRepo). owner_info s e)
        (values (group_repos (get_owners_with_repos s.owners s.installations s.repos) []))
