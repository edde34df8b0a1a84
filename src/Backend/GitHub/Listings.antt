-- ===== src/Backend/GitHub/Listings.antt =====
-- backend/src/github/serve.rs: the page of a repository against the pages of its commits.
mod Grouping
pub mod Ordering
use Prim.Native.String.{String}
use cloud_devenv_sh.Backend.GitHub.Pages.{
  get_or_default, get_repo_jobs, get_rev, JobResponse, take_jobs, Commit, group_jobs, commit_of,
  get_jobs_for_repo, find_repo, get_jobs_by_commit_id, get_by_repo_and_rev, Page,
  get_by_repo_ordered, Pair, OrdersByPlatform, response,
}
use cloud_devenv_sh.Base.{
  ℕ, Map, List, ◌==◌, ◌≡◌, false, refl, All, IsUnique, map, [], ◌∷◌, ap, some, ◌∙◌, filterb,
}
use cloud_devenv_sh.Base.Maps.{remove, get-remove}
use cloud_devenv_sh.Backend.GitHub.{Hub, GitHubCommit, GitHubRepo}
use cloud_devenv_sh.Backend.GitHub.Listings.Ordering.{
  Descending, ListedIn, all_listed, Distinct, IsKeyed, IsRow, ordered-Rows,
}
use cloud_devenv_sh.Backend.GitHub.Listings.Grouping.{
  of_commit, commit-RowsOf, RowsOf, shown, group_jobs_lem, repo-RowsOf, grouped, rows-HasCommit,
}

default-remove {ℓ} :
    {V : Type ℓ} (k j : ℕ) (m : Map (List V))
    → (k == j) ≡ false
    → get_or_default j (remove k m) ≡ get_or_default j m
unfolding get_or_default
default-remove k j m n = rw (get_or_default, get-remove k j m, n) refl

module _ (owner repo : String) where
  abbrev pub entry : Map (List JobResponse) → GitHubCommit → Commit
  entry m c = commit_of owner repo c (get_or_default c.id m)

  entries_without :
      (id : ℕ) (m : Map (List JobResponse)) (cs : List GitHubCommit)
      → All (λ (d : GitHubCommit). (id == d.id) ≡ false) cs
      → map (entry (remove id m)) cs ≡ map (entry m) cs
  unfolding get_or_default
  entries_without id m [] a = refl
  entries_without id m (c ∷ cs) (n, a) =
      ap (λ (jobs : List JobResponse). commit_of owner repo c jobs ∷ map (entry (remove id m)) cs)
        (default-remove id c.id m n)
      ∙ ap (λ (l : List Commit). entry m c ∷ l) (entries_without id m cs a)

  take_jobs_lem :
      (log_url : ℕ → String) (cs : List GitHubCommit) (m : Map (List JobResponse))
      → Distinct cs
      → take_jobs log_url owner repo cs m ≡ map (entry m) cs
  unfolding take_jobs
  take_jobs_lem log_url [] m u = refl
  take_jobs_lem log_url (c ∷ cs) m (a, u) =
      ap (λ (l : List Commit). entry m c ∷ l)
        (take_jobs_lem log_url cs (remove c.id m) u ∙ entries_without c.id m cs a)

-- The commit with just its jobs, by their platform.
abbrev pub IsEntryOf : (ℕ → String) → String → String → Hub → GitHubCommit → Commit → Type 0
IsEntryOf log_url owner repo s c e =
    (rows : List Pair) × RowsOf s c rows
    × (e ≡ commit_of owner repo c (map (λ (p : Pair). response log_url c p) rows))

-- One entry for each commit, in their order.
abbrev pub AreEntriesOf :
    (ℕ → String) → String → String → Hub → List GitHubCommit → List Commit → Type 0
AreEntriesOf log_url owner repo s [] [] = Unit
AreEntriesOf log_url owner repo s (c ∷ cs) (e ∷ es) =
    IsEntryOf log_url owner repo s c e × AreEntriesOf log_url owner repo s cs es
AreEntriesOf log_url owner repo s _ _ = ⊥

-- Just the commits of the repository, each once and the newest first.
abbrev pub AreCommitsOf : ℕ → Map GitHubCommit → List GitHubCommit → Type 0
AreCommitsOf repo_id commits cs =
    Descending cs × All (IsRow repo_id commits) cs × All (ListedIn repo_id cs) commits

entries_of :
    {order : List Pair → List Pair} (o : OrdersByPlatform order) (log_url : ℕ → String)
    (owner repo : String) (s : Hub) (repo_id : ℕ) (m : Map (List JobResponse))
    (cs : List GitHubCommit)
    → group_jobs log_url s.commits (get_jobs_for_repo order repo_id s) [] ≡ some m
    → All (IsRow repo_id s.commits) cs
    → AreEntriesOf log_url owner repo s cs (map (entry owner repo m) cs)
unfolding get_or_default
entries_of o log_url owner repo s repo_id m [] h a = tt
entries_of {order} o log_url owner repo s repo_id m (c ∷ cs) h ((g, r), a) = (
  (
    filterb (of_commit c.id) (get_jobs_for_repo order repo_id s),
    repo-RowsOf o repo_id s c g r,
    ap (λ (js : List JobResponse). commit_of owner repo c js)
        (group_jobs_lem log_url s.commits c (get_jobs_for_repo order repo_id s) [] m g h),
  ),
  entries_of o log_url owner repo s repo_id m cs h a,
)

-- The page of a repository, which groups the rows of one join by their commit, never meets a commit that
-- is missing; it lists just the repository's commits, the newest first, each with just its jobs, as the
-- page of the commit alone does by its own query; the order of a commit's jobs is one by platform, and the
-- two pages may differ in the order within a platform. The rows of commits stand under their ids, once.
pub get_repo_jobs-entries :
    {order : List Pair → List Pair} (o : OrdersByPlatform order) (log_url : ℕ → String)
    (owner repo_name rev : String) (s : Hub) (repo : GitHubRepo) (c : GitHubCommit)
    → IsKeyed s.commits
    → IsUnique s.commits
    → find_repo owner repo_name s ≡ some repo
    → get_by_repo_and_rev repo.id rev s.commits ≡ some c
    → ((cs : List GitHubCommit) × (es : List Commit) × AreCommitsOf repo.id s.commits cs
        × AreEntriesOf log_url owner repo_name s cs es
        × (get_repo_jobs order log_url owner repo_name s
            ≡ Page.page (record { owner = owner; repo = repo_name; commits = es })))
      × ((e : Commit) × IsEntryOf log_url owner repo_name s c e
          × (get_rev order log_url owner repo_name rev s ≡ some e))
unfolding get_repo_jobs get_rev
get_repo_jobs-entries {order} o log_url owner repo_name rev s repo c k u found at =
    let cs : List GitHubCommit = get_by_repo_ordered repo.id s.commits in
    let (m, g) =
      grouped log_url s.commits (get_jobs_for_repo order repo.id s) []
        (rows-HasCommit o repo.id s) in
    let (rows, distinct, newest) = ordered-Rows repo.id s.commits k u in
    (
      (
        cs,
        map (entry owner repo_name m) cs,
        (newest, rows, all_listed repo.id s.commits),
        entries_of o log_url owner repo_name s repo.id m cs g rows,
        rw (get_repo_jobs, found, g)
            (ap
              (λ (es : List Commit).
                Page.page (record { owner = owner; repo = repo_name; commits = es }))
              (take_jobs_lem owner repo_name log_url cs m distinct)),
      ),
      (
        commit_of owner repo_name c
            (map (λ (p : Pair). response log_url c p) (get_jobs_by_commit_id order c.id s)),
        (get_jobs_by_commit_id order c.id s, commit-RowsOf o s c, refl),
        rw (get_rev, found, at) refl,
      ),
    )
