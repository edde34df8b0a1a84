-- ===== src/Backend/GitHub/Listings/Grouping.antt =====
-- backend/src/github/serve.rs, `get_repo_jobs`: the map from commits to their jobs.
use mathlib.Core.Bool.{false≢true}
use mathlib.Core.List.{append-nil, append_assoc, Permᴰ}
use cloud_devenv_sh.Backend.GitHub.Pages.{
  OrdersByPlatform, ByPlatform, MayPrecede, get_jobs_for_repo, get_or_default, group_jobs, in_repo,
  Pair, get_jobs_by_commit_id, push_entry, JobResponse, join_jobs, response,
}
use cloud_devenv_sh.Base.{
  Map, ℕ, All, Bool, List, ◌≡◌, filterb, some, true, ◌++◌, ◌==◌, ap, false, map, none, subst, ◌∷◌,
  Bool-cases, Option-cases, [], refl, sym, ◌∙◌, ==_iff, inl, some_inj, ==_refl, arith, inr,
  no_result,
}
use cloud_devenv_sh.Backend.GitHub.{GitHubCommit, Hub, String}
use cloud_devenv_sh.Base.Maps.{get, get-insert, get-update}
use mathlib.Core.List.Permᴰ
use cloud_devenv_sh.Base.Filters.{
  filterb_reordered, All_reordered, All-filterb, filterb_implied, All-kept, filterb-keep,
  filterb-skip,
}

abbrev pub of_commit : ℕ → Pair → Bool
of_commit id p = p.0.commit_id == id

pub ByPlatform-filterb :
    (f : Pair → Bool) (rows : List Pair) → ByPlatform rows → ByPlatform (filterb f rows)
ByPlatform-filterb f [] a = tt
ByPlatform-filterb f (p ∷ rows) (a, b) = elim (Bool-cases (f p)) [
  | inl e ↦ rw e (All-kept (MayPrecede p) f rows a, ByPlatform-filterb f rows b)
  | inr e ↦ rw e (ByPlatform-filterb f rows b)
]

in_repo_of :
    (repo_id : ℕ) (s : Hub) (c : GitHubCommit) (p : Pair)
    → get c.id s.commits ≡ some c
    → c.repo_id ≡ repo_id
    → of_commit c.id p ≡ true
    → in_repo repo_id s p.0.commit_id ≡ true
unfolding in_repo
in_repo_of repo_id s c p e f h =
    subst (λ j. in_repo repo_id s j ≡ true) (sym ((==_iff p.0.commit_id c.id).0 h))
      (rw (in_repo, e, f) (==_refl repo_id))

-- The rows of a commit, in any order that goes by the platform.
abbrev pub RowsOf : Hub → GitHubCommit → List Pair → Type 0
RowsOf s c rows =
    Permᴰ rows (filterb (of_commit c.id) (join_jobs s.server.jobs s.jobs_github)) × ByPlatform rows

module _ {order : List Pair → List Pair} (o : OrdersByPlatform order) where
  -- Of the rows of a repository, those of one of its commits are the rows of that commit.
  pub repo-RowsOf :
      (repo_id : ℕ) (s : Hub) (c : GitHubCommit)
      → get c.id s.commits ≡ some c
      → c.repo_id ≡ repo_id
      → RowsOf s c (filterb (of_commit c.id) (get_jobs_for_repo order repo_id s))
  unfolding get_jobs_for_repo
  repo-RowsOf repo_id s c e f =
      let rows : List Pair = join_jobs s.server.jobs s.jobs_github in
      let mine : List Pair = filterb (λ (p : Pair). in_repo repo_id s p.0.commit_id) rows in
      (
        subst (λ l. Permᴰ (filterb (of_commit c.id) (order mine)) l)
            (filterb_implied (of_commit c.id) (λ (p : Pair). in_repo repo_id s p.0.commit_id) rows
              (λ p h. in_repo_of repo_id s c p e f h))
            (filterb_reordered (of_commit c.id) (o.same_rows mine)),
        ByPlatform-filterb (of_commit c.id) (order mine) (o.by_platform mine),
      )

  pub commit-RowsOf : (s : Hub) (c : GitHubCommit) → RowsOf s c (get_jobs_by_commit_id order c.id s)
  unfolding get_jobs_by_commit_id
  commit-RowsOf s c =
      let rows : List Pair = filterb (of_commit c.id) (join_jobs s.server.jobs s.jobs_github) in
      (o.same_rows rows, o.by_platform rows)

pub push_entry_same {ℓ} :
    {V : Type ℓ} (key : ℕ) (x : V) (m : Map (List V))
    → get_or_default key (push_entry key x m) ≡ get_or_default key m ++ x ∷ []
unfolding get_or_default push_entry
push_entry_same key x m = elim (Option-cases (get key m)) [
  | inl e ↦ rw (push_entry, e) (ground (arith, ==_refl key, get-insert key key (x ∷ []) m, e))
  | inr (xs, e) ↦
      rw (push_entry, e) (ground (arith, ==_refl key, get-update key key (λ ys. ys ++ x ∷ []) m, e))
]

pub push_entry_other {ℓ} :
    {V : Type ℓ} (key k : ℕ) (x : V) (m : Map (List V))
    → (key == k) ≡ false
    → get_or_default k (push_entry key x m) ≡ get_or_default k m
unfolding get_or_default push_entry
push_entry_other key k x m differs = elim (Option-cases (get key m)) [
  | inl e ↦ rw (push_entry, e) (ground (arith, differs, get-insert key k (x ∷ []) m))
  | inr (xs, e) ↦
      rw (push_entry, e) (ground (arith, differs, get-update key k (λ ys. ys ++ x ∷ []) m))
]

module _ (log_url : ℕ → String) (commits : Map GitHubCommit) where
  -- The rows of a commit, as the pages show them.
  abbrev pub shown : GitHubCommit → List Pair → List JobResponse
  shown c rows = map (λ (p : Pair). response log_url c p) rows

  pub group_found :
      (p : Pair) (rows : List Pair) (m : Map (List JobResponse)) (d : GitHubCommit)
      → get p.0.commit_id commits ≡ some d
      → group_jobs log_url commits (p ∷ rows) m
        ≡ group_jobs log_url commits rows (push_entry p.0.commit_id (response log_url d p) m)
  unfolding group_jobs
  group_found p rows m d e = rw (group_jobs, e) refl

  group_missing :
      (p : Pair) (rows : List Pair) (m : Map (List JobResponse))
      → get p.0.commit_id commits ≡ none
      → group_jobs log_url commits (p ∷ rows) m ≡ none
  unfolding group_jobs
  group_missing p rows m e = rw (group_jobs, e) refl

  -- One more row, of the commit `c` or of another.
  one_more :
      (c d : GitHubCommit) (p : Pair) (rows : List Pair) (m : Map (List JobResponse))
      → get c.id commits ≡ some c
      → get p.0.commit_id commits ≡ some d
      → get_or_default c.id (push_entry p.0.commit_id (response log_url d p) m)
          ++ shown c (filterb (of_commit c.id) rows)
        ≡ get_or_default c.id m ++ shown c (filterb (of_commit c.id) (p ∷ rows))
  one_more c d p rows m e f = elim (Bool-cases (of_commit c.id p)) [
    | inl same ↦
        let at : p.0.commit_id ≡ c.id = (==_iff p.0.commit_id c.id).0 same in
        let is_c : d ≡ c = some_inj (sym f ∙ (ap (λ j. get j commits) at ∙ e)) in
        (ap (λ (l : List JobResponse). l ++ shown c (filterb (of_commit c.id) rows))
            (ap (λ x. get_or_default c.id (push_entry p.0.commit_id (response log_url x p) m)) is_c
              ∙ ap (λ j. get_or_default c.id (push_entry j (response log_url c p) m)) at
              ∙ push_entry_same c.id (response log_url c p) m)
          ∙ append_assoc (get_or_default c.id m) (response log_url c p ∷ [])
              (shown c (filterb (of_commit c.id) rows))
          ∙ ap (λ l. get_or_default c.id m ++ shown c l)
              (sym (filterb-keep (of_commit c.id) p rows same)))
    | inr other ↦
        ap (λ (l : List JobResponse). l ++ shown c (filterb (of_commit c.id) rows))
          (push_entry_other p.0.commit_id c.id (response log_url d p) m other)
        ∙ ap (λ l. get_or_default c.id m ++ shown c l)
            (sym (filterb-skip (of_commit c.id) p rows other))
  ]

  pub group_jobs_lem :
      (c : GitHubCommit) (rows : List Pair) (m r : Map (List JobResponse))
      → get c.id commits ≡ some c
      → group_jobs log_url commits rows m ≡ some r
      → get_or_default c.id r ≡ get_or_default c.id m ++ shown c (filterb (of_commit c.id) rows)
  unfolding group_jobs
  group_jobs_lem c [] m r e h =
      ap (λ (n : Map (List JobResponse)). get_or_default c.id n) (sym (some_inj h))
      ∙ sym (append-nil (get_or_default c.id m))
  group_jobs_lem c (p ∷ rows) m r e h = elim (Option-cases (get p.0.commit_id commits)) [
    | inl n ↦ elim (no_result (group_missing p rows m n) h) [ ]
    | inr (d, f) ↦
        group_jobs_lem c rows (push_entry p.0.commit_id (response log_url d p) m) r e
          (sym (group_found p rows m d f) ∙ h)
        ∙ one_more c d p rows m e f
  ]

-- The commit of a row is there.
abbrev pub HasCommit : Map GitHubCommit → Pair → Type 0
HasCommit commits p = (c : GitHubCommit) × (get p.0.commit_id commits ≡ some c)

in_repo-HasCommit :
    (repo_id : ℕ) (s : Hub) (p : Pair)
    → in_repo repo_id s p.0.commit_id ≡ true
    → HasCommit s.commits p
unfolding in_repo
in_repo-HasCommit repo_id s p h = elim (Option-cases (get p.0.commit_id s.commits)) [
  | inl e ↦ elim (false≢true (sym (absent repo_id s p e) ∙ h)) [ ]
  | inr (c, e) ↦ (c, e)
]
  where
    absent :
        (repo_id : ℕ) (s : Hub) (p : Pair)
        → get p.0.commit_id s.commits ≡ none
        → in_repo repo_id s p.0.commit_id ≡ false
    absent repo_id s p e = rw (in_repo, e) refl

pub rows-HasCommit :
    {order : List Pair → List Pair} (o : OrdersByPlatform order) (repo_id : ℕ) (s : Hub)
    → All (HasCommit s.commits) (get_jobs_for_repo order repo_id s)
unfolding get_jobs_for_repo
rows-HasCommit o repo_id s =
    let rows : List Pair =
      filterb (λ (p : Pair). in_repo repo_id s p.0.commit_id)
        (join_jobs s.server.jobs s.jobs_github) in
    All_reordered (HasCommit s.commits) (Permᴰ.symm (o.same_rows rows)) (
      All-filterb (HasCommit s.commits) (λ (p : Pair). in_repo repo_id s p.0.commit_id)
        (join_jobs s.server.jobs s.jobs_github) (in_repo-HasCommit repo_id s))

pub grouped :
    (log_url : ℕ → String) (commits : Map GitHubCommit) (rows : List Pair)
    (m : Map (List JobResponse))
    → All (HasCommit commits) rows
    → (r : Map (List JobResponse)) × (group_jobs log_url commits rows m ≡ some r)
unfolding group_jobs
grouped log_url commits [] m a = (m, refl)
grouped log_url commits (p ∷ rows) m ((c, e), a) =
    let (r, f) =
      grouped log_url commits rows (push_entry p.0.commit_id (response log_url c p) m) a in
    (r, group_found log_url commits p rows m c e ∙ f)
