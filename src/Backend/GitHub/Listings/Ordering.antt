-- ===== src/Backend/GitHub/Listings/Ordering.antt =====
-- backend/src/github/model.rs, `get_by_repo_ordered`: the commits of a repository, the newest first.
use cloud_devenv_sh.Backend.GitHub.Pages.{get_by_repo_ordered, insert_by_id}
use cloud_devenv_sh.Base.{
  List, Map, ℕ, All, IsUnique, ◌∷◌, ◌≡◌, Bool-cases, [], none, some, subst, ◌==◌, All-imp, false,
  ltb, sym, inl, inr, ==_refl, arith, no_result, ==_iff, ap, refl, ◌∙◌, ◌<◌, ◌⊎◌, ltb→lt, true,
}
use cloud_devenv_sh.Base.Maps.{get}
use cloud_devenv_sh.Backend.GitHub.{GitHubCommit}

-- No commit is listed twice.
abbrev pub Distinct : List GitHubCommit → Type 0
Distinct [] = Unit
Distinct (c ∷ cs) = All (λ (d : GitHubCommit). (c.id == d.id) ≡ false) cs × Distinct cs

-- Each row stands under its own id.
abbrev pub IsKeyed : Map GitHubCommit → Type 0
IsKeyed [] = Unit
IsKeyed ((id, c) ∷ rest) = (id ≡ c.id) × IsKeyed rest

All-insert_by_id :
    (P : GitHubCommit → Type 0) (c : GitHubCommit) (cs : List GitHubCommit)
    → P c
    → All P cs
    → All P (insert_by_id c cs)
unfolding insert_by_id
All-insert_by_id P c [] p a = (p, tt)
All-insert_by_id P c (d ∷ cs) p (q, a) = elim (Bool-cases (ltb d.id c.id)) [
  | inl e ↦ rw e (p, (q, a))
  | inr e ↦ rw e (q, All-insert_by_id P c cs p a)
]

insert_by_id-Distinct :
    (c : GitHubCommit) (cs : List GitHubCommit)
    → All (λ (d : GitHubCommit). (c.id == d.id) ≡ false) cs
    → Distinct cs
    → Distinct (insert_by_id c cs)
unfolding insert_by_id
insert_by_id-Distinct c [] a u = (tt, tt)
insert_by_id-Distinct c (d ∷ cs) (n, a) (b, u) = elim (Bool-cases (ltb d.id c.id)) [
  | inl e ↦ rw e ((n, a), (b, u))
  | inr e ↦ rw e (
    All-insert_by_id (λ (x : GitHubCommit). (d.id == x.id) ≡ false) c cs (ground (arith, n)) b,
    insert_by_id-Distinct c cs a u,
  )
]

abbrev pub IsOlder : GitHubCommit → GitHubCommit → Type 0
IsOlder c d = d.id < c.id

-- The newest first.
abbrev pub Descending : List GitHubCommit → Type 0
Descending [] = Unit
Descending (c ∷ cs) = All (IsOlder c) cs × Descending cs

insert_by_id-Descending :
    (c : GitHubCommit) (cs : List GitHubCommit)
    → All (λ (d : GitHubCommit). (c.id == d.id) ≡ false) cs
    → Descending cs
    → Descending (insert_by_id c cs)
unfolding insert_by_id
insert_by_id-Descending c [] a u = (tt, tt)
insert_by_id-Descending c (d ∷ cs) (n, a) (b, u) = elim (Bool-cases (ltb d.id c.id)) [
  | inl e ↦
      let lt : d.id < c.id = ltb→lt d.id c.id e in
      rw e ((lt, All-imp (IsOlder d) (IsOlder c) cs (λ x h. omega (arith, h, lt)) b), (b, u))
  | inr e ↦
      rw e (
        All-insert_by_id (IsOlder d) c cs (ground (arith, n, e)) b,
        insert_by_id-Descending c cs a u,
      )
]

abbrev pub IsListed : GitHubCommit → List GitHubCommit → Type 0
IsListed c [] = ⊥
IsListed c (d ∷ cs) = (c ≡ d) ⊎ IsListed c cs

insert_by_id-IsListed :
    (x c : GitHubCommit) (cs : List GitHubCommit)
    → (x ≡ c) ⊎ IsListed x cs
    → IsListed x (insert_by_id c cs)
unfolding insert_by_id
insert_by_id-IsListed x c [] (inl e) = inl e
insert_by_id-IsListed x c [] (inr h) = elim h [ ]
insert_by_id-IsListed x c (d ∷ cs) h = elim (Bool-cases (ltb d.id c.id)) [
  | inl e ↦ rw e h
  | inr e ↦ rw e (elim h [
    | inl same ↦ inr (insert_by_id-IsListed x c cs (inl same))
    | inr (inl first) ↦ inl first
    | inr (inr later) ↦ inr (insert_by_id-IsListed x c cs (inr later))
  ])
]

-- A row of the table is listed unless it is of another repository.
abbrev pub ListedIn : ℕ → List GitHubCommit → ℕ × GitHubCommit → Type 0
ListedIn repo_id cs (id, c) = ((c.repo_id == repo_id) ≡ false) ⊎ IsListed c cs

module _ (repo_id id : ℕ) (c : GitHubCommit) (rest : Map GitHubCommit) where
  first-IsListed :
      (c.repo_id == repo_id) ≡ true → IsListed c (get_by_repo_ordered repo_id ((id, c) ∷ rest))
  unfolding get_by_repo_ordered
  first-IsListed e = rw e (insert_by_id-IsListed c c (get_by_repo_ordered repo_id rest) (inl refl))

  still-IsListed :
      (x : GitHubCommit)
      → IsListed x (get_by_repo_ordered repo_id rest)
      → IsListed x (get_by_repo_ordered repo_id ((id, c) ∷ rest))
  unfolding get_by_repo_ordered
  still-IsListed x h = elim (Bool-cases (c.repo_id == repo_id)) [
    | inl e ↦ rw e (insert_by_id-IsListed x c (get_by_repo_ordered repo_id rest) (inr h))
    | inr e ↦ rw e h
  ]

pub all_listed :
    (repo_id : ℕ) (commits : Map GitHubCommit)
    → All (ListedIn repo_id (get_by_repo_ordered repo_id commits)) commits
all_listed repo_id [] = tt
all_listed repo_id ((id, c) ∷ rest) = (
  elim (Bool-cases (c.repo_id == repo_id)) [
    | inl e ↦ inr (first-IsListed repo_id id c rest e)
    | inr e ↦ inl e
  ],
  All-imp (ListedIn repo_id (get_by_repo_ordered repo_id rest))
      (ListedIn repo_id (get_by_repo_ordered repo_id ((id, c) ∷ rest))) rest
      (λ x h. elim h [ inl o ↦ inl o | inr l ↦ inr (still-IsListed repo_id id c rest x.1 l) ])
      (all_listed repo_id rest),
)

-- A commit of this repository, found under its id.
abbrev pub IsRow : ℕ → Map GitHubCommit → GitHubCommit → Type 0
IsRow repo_id commits c = (get c.id commits ≡ some c) × (c.repo_id ≡ repo_id)

IsRow-below :
    (repo_id : ℕ) (c d : GitHubCommit) (rest : Map GitHubCommit)
    → get c.id rest ≡ none
    → IsRow repo_id rest d
    → IsRow repo_id ((c.id, c) ∷ rest) d × ((c.id == d.id) ≡ false)
unfolding get
IsRow-below repo_id c d rest n (g, r) = elim (Bool-cases (c.id == d.id)) [
  | inl e ↦ elim (no_result n (ap (λ j. get j rest) ((==_iff c.id d.id).0 e) ∙ g)) [ ]
  | inr e ↦ ((rw e g, r), e)
]

abbrev pub Rows : ℕ → Map GitHubCommit → Type 0
Rows repo_id commits =
    All (IsRow repo_id commits) (get_by_repo_ordered repo_id commits)
    × Distinct (get_by_repo_ordered repo_id commits)
    × Descending (get_by_repo_ordered repo_id commits)

ordered_cons :
    (repo_id : ℕ) (c : GitHubCommit) (rest : Map GitHubCommit)
    → get c.id rest ≡ none
    → Rows repo_id rest
    → Rows repo_id ((c.id, c) ∷ rest)
unfolding get_by_repo_ordered get
ordered_cons repo_id c rest n (a, u, v) =
    let later : List GitHubCommit = get_by_repo_ordered repo_id rest in
    let below : All (IsRow repo_id ((c.id, c) ∷ rest)) later =
      All-imp (IsRow repo_id rest) (IsRow repo_id ((c.id, c) ∷ rest)) later
        (λ d r. (IsRow-below repo_id c d rest n r).0) a in
    let apart : All (λ (d : GitHubCommit). (c.id == d.id) ≡ false) later =
      All-imp (IsRow repo_id rest) (λ (d : GitHubCommit). (c.id == d.id) ≡ false) later
        (λ d r. (IsRow-below repo_id c d rest n r).1) a in
    elim (Bool-cases (c.repo_id == repo_id)) [
      | inr e ↦ rw e (below, u, v)
      | inl e ↦ rw e (
        All-insert_by_id (IsRow repo_id ((c.id, c) ∷ rest)) c later
            (rw (==_refl c.id) refl, (==_iff c.repo_id repo_id).0 e) below,
        insert_by_id-Distinct c later apart u,
        insert_by_id-Descending c later apart v,
      )
    ]

pub ordered-Rows :
    (repo_id : ℕ) (commits : Map GitHubCommit)
    → IsKeyed commits
    → IsUnique commits
    → Rows repo_id commits
unfolding get_by_repo_ordered
ordered-Rows repo_id [] k u = (tt, tt, tt)
ordered-Rows repo_id ((id, c) ∷ rest) (i, k) (n, u) =
    subst (λ j. Rows repo_id ((j, c) ∷ rest)) (sym i)
      (ordered_cons repo_id c rest (subst (λ j. get j rest ≡ none) i n)
        (ordered-Rows repo_id rest k u))
