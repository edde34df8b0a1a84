-- ===== src/Backend/GitHub/Active.antt =====
-- backend/src/github/serve.rs, `get_repos`: which repositories the page lists.
use Prim.Native.String.{String}
use cloud_devenv_sh.Base.Maps.{remove, update, insert, get, values}
use cloud_devenv_sh.Backend.GitHub.Overview.{
  get_owners_with_repos, group_repos, owner_repos, owner_rows, get_repos, owner_info,
  OwnerWithRepos, RepoInfo, repo_info,
}
use cloud_devenv_sh.Base.{
  ◌⊎◌, Map, All, List, ℕ, ◌≡◌, true, ◌++◌, false, ◌∷◌, All-append, Bool-cases, Option-cases, [],
  ◌==◌, inl, inr, ◌&&◌, not, refl, subst, arith, sym, ==_iff, map,
}
use cloud_devenv_sh.Backend.GitHub.{
  GitHubRepo, GithubInstallation, GithubOwner, has_installation, Hub,
}
use cloud_devenv_sh.Backend.GitHub.Pages.{Pair}

-- A row of the table.
abbrev pub Holds : Map GitHubRepo → GitHubRepo → Type 0
Holds [] r = ⊥
Holds ((id, x) ∷ m) r = (r ≡ x) ⊎ Holds m r

module _ (table : Map GitHubRepo) where
  -- A repository of the table that is not disabled, of an owner who has an installation that is not.
  abbrev pub IsActive : Map GithubInstallation → ℕ → GitHubRepo → Type 0
  IsActive installations owner_id r =
      Holds table r
      × (has_installation owner_id installations ≡ true)
      × (r.owner_id ≡ owner_id)
      × (r.disabled ≡ false)

  abbrev IsActiveRow : Map GithubInstallation → GithubOwner × GitHubRepo → Type 0
  IsActiveRow installations (owner, r) = IsActive installations owner.id r

  owner_repos-IsActive :
      (installations : Map GithubInstallation) (owner : GithubOwner) (repos : Map GitHubRepo)
      → ((r : GitHubRepo) → Holds repos r → Holds table r)
      → has_installation owner.id installations ≡ true
      → All (IsActiveRow installations) (owner_repos owner repos)
  unfolding owner_repos
  owner_repos-IsActive installations owner [] sub h = tt
  owner_repos-IsActive installations owner ((id, r) ∷ rest) sub h =
      elim (Bool-cases (r.owner_id == owner.id && not r.disabled)) [
        | inl e ↦ rw e (
          (sub r (inl refl), h, ground (arith, e), ground (arith, e)),
          owner_repos-IsActive installations owner rest (λ x k. sub x (inr k)) h,
        )
        | inr e ↦ rw e (owner_repos-IsActive installations owner rest (λ x k. sub x (inr k)) h)
      ]

  -- The installations that are looked at are some of all.
  owner_rows-IsActive :
      (all some_of : Map GithubInstallation) (owner : GithubOwner) (repos : Map GitHubRepo)
      → ((r : GitHubRepo) → Holds repos r → Holds table r)
      → (has_installation owner.id some_of ≡ true → has_installation owner.id all ≡ true)
      → All (IsActiveRow all) (owner_rows owner some_of repos)
  unfolding owner_rows has_installation
  owner_rows-IsActive all [] owner repos sub h = tt
  owner_rows-IsActive all ((id, i) ∷ rest) owner repos sub h =
      elim (Bool-cases (i.owner_id == owner.id && not i.disabled)) [
        | inl e ↦ rw e (
            All-append (IsActiveRow all) (owner_repos owner repos) (owner_rows owner rest repos)
              (owner_repos-IsActive all owner repos sub (h (rw e refl)))
              (owner_rows-IsActive all rest owner repos sub (λ g. h (rw e refl))))
        | inr e ↦ rw e (owner_rows-IsActive all rest owner repos sub (λ g. h (rw e g)))
      ]

  rows-IsActive :
      (owners : Map GithubOwner) (installations : Map GithubInstallation) (repos : Map GitHubRepo)
      → ((r : GitHubRepo) → Holds repos r → Holds table r)
      → All (IsActiveRow installations) (get_owners_with_repos owners installations repos)
  unfolding get_owners_with_repos
  rows-IsActive [] installations repos sub = tt
  rows-IsActive ((id, o) ∷ rest) installations repos sub =
      All-append (IsActiveRow installations) (owner_rows o installations repos)
        (get_owners_with_repos rest installations repos)
        (owner_rows-IsActive installations installations o repos sub (λ h. h))
        (rows-IsActive rest installations repos sub)

  -- An entry of the map of owners, under the owner's id.
  abbrev IsEntry : Map GithubInstallation → ℕ × (GithubOwner × List GitHubRepo) → Type 0
  IsEntry installations (k, e) = (e.0.id ≡ k) × All (IsActive installations k) e.1

  remove-IsEntry :
      (installations : Map GithubInstallation) (k : ℕ) (m : Map (GithubOwner × List GitHubRepo))
      → All (IsEntry installations) m
      → All (IsEntry installations) (remove k m)
  unfolding remove
  remove-IsEntry installations k [] a = tt
  remove-IsEntry installations k ((j, e) ∷ m) (h, a) = elim (Bool-cases (j == k)) [
    | inl same ↦ rw same (remove-IsEntry installations k m a)
    | inr other ↦ rw other (h, remove-IsEntry installations k m a)
  ]

  abbrev push_repo : GitHubRepo → GithubOwner × List GitHubRepo → GithubOwner × List GitHubRepo
  push_repo r e = (e.0, e.1 ++ r ∷ [])

  update-IsEntry :
      (installations : Map GithubInstallation) (k : ℕ) (r : GitHubRepo)
      (m : Map (GithubOwner × List GitHubRepo))
      → IsActive installations k r
      → All (IsEntry installations) m
      → All (IsEntry installations) (update k (push_repo r) m)
  unfolding update
  update-IsEntry installations k r [] x a = tt
  update-IsEntry installations k r ((j, e) ∷ m) x ((i, h), a) = elim (Bool-cases (j == k)) [
    | inr other ↦ rw other ((i, h), update-IsEntry installations k r m x a)
    | inl same ↦ rw same (
      (
        i,
        All-append (IsActive installations j) e.1 (r ∷ []) h
            (subst (λ n. IsActive installations n r) (sym ((==_iff j k).0 same)) x, tt),
      ),
      update-IsEntry installations k r m x a,
    )
  ]

  group_repos-IsEntry :
      (installations : Map GithubInstallation) (rows : List (GithubOwner × GitHubRepo))
      (m : Map (GithubOwner × List GitHubRepo))
      → All (IsActiveRow installations) rows
      → All (IsEntry installations) m
      → All (IsEntry installations) (group_repos rows m)
  unfolding group_repos insert
  group_repos-IsEntry installations [] m a b = b
  group_repos-IsEntry installations ((o, r) ∷ rows) m (x, a) b = elim (Option-cases (get o.id m)) [
    | inl e ↦
        rw (group_repos, e)
          (group_repos-IsEntry installations rows (insert o.id (o, r ∷ []) m) a
            ((refl, (x, tt)), remove-IsEntry installations o.id m b))
    | inr (old, e) ↦
        rw (group_repos, e)
          (group_repos-IsEntry installations rows (update o.id (push_repo r) m) a
            (update-IsEntry installations o.id r m x b))
  ]

-- What the page says of an owner: each of the repositories is an active one of this owner in the table, shown with its
-- latest commit.
abbrev pub ShowsActive : (List Pair → List Pair) → (ℕ → String) → Hub → OwnerWithRepos → Type 0
ShowsActive order log_url s o =
    All
      (λ (info : RepoInfo).
        (r : GitHubRepo) × (owner : GithubOwner) × IsActive s.repos s.installations o.id r
        × (owner.id ≡ o.id)
        × (info ≡ repo_info order log_url s owner r))
      o.repos

infos-ShowsActive :
    (order : List Pair → List Pair) (log_url : ℕ → String) (s : Hub) (owner : GithubOwner)
    (repos : List GitHubRepo)
    → All (IsActive s.repos s.installations owner.id) repos
    → All
        (λ (info : RepoInfo).
          (r : GitHubRepo) × (o : GithubOwner) × IsActive s.repos s.installations owner.id r
          × (o.id ≡ owner.id)
          × (info ≡ repo_info order log_url s o r))
        (map (λ (r : GitHubRepo). repo_info order log_url s owner r) repos)
infos-ShowsActive order log_url s owner [] a = tt
infos-ShowsActive order log_url s owner (r ∷ repos) (x, a) =
    ((r, owner, x, refl, refl), infos-ShowsActive order log_url s owner repos a)

owners-ShowsActive :
    (order : List Pair → List Pair) (log_url : ℕ → String) (s : Hub)
    (m : Map (GithubOwner × List GitHubRepo))
    → All (IsEntry s.repos s.installations) m
    → All
        (ShowsActive order log_url s)
        (map (λ (e : GithubOwner × List GitHubRepo). owner_info order log_url s e) (values m))
unfolding owner_info
owners-ShowsActive order log_url s [] a = tt
owners-ShowsActive order log_url s ((k, e) ∷ m) ((i, h), a) = (
  infos-ShowsActive order log_url s e.0 e.1
      (subst (λ n. All (IsActive s.repos s.installations n) e.1) (sym i) h),
  owners-ShowsActive order log_url s m a,
)

-- The page of all repositories lists only repositories of the table that are not disabled, each with the owner whose
-- it is, and only of owners who have an installation that is not disabled.
pub get_repos-ShowsActive :
    (order : List Pair → List Pair) (log_url : ℕ → String) (s : Hub)
    → All (ShowsActive order log_url s) (get_repos order log_url s)
unfolding get_repos
get_repos-ShowsActive order log_url s =
    owners-ShowsActive order log_url s
      (group_repos (get_owners_with_repos s.owners s.installations s.repos) [])
      (group_repos-IsEntry s.repos s.installations
        (get_owners_with_repos s.owners s.installations s.repos) []
        (rows-IsActive s.repos s.owners s.installations s.repos (λ r h. h)) tt)
