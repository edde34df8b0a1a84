-- ===== src/Backend/Jobs/Queue.antt =====
-- backend/src/job/model.rs, `find_queued_job_for_platform`: the job that a runner is offered.
use cloud_devenv_sh.Base.{
  refl, ℕ, [], ◌∷◌, none, Bool, List, Option, All, filterb, some, ◌≡◌, false, true, ◌⊎◌, inl, inr,
  ltb, ◌≤◌, arith, All-imp, Bool-cases, ltb→lt, not, sym, ◌&&◌, ◌∙◌,
}
use cloud_devenv_sh.Backend.Jobs.{
  Job, find_queued_job_for_platform, least_id, Jobs, is_candidate, pick, platform_eq,
}
use cloud_devenv_sh.Protocol.{Platform, JobStatus, status_eq}
use mathlib.Core.Bool.{false≢true}
use cloud_devenv_sh.Base.Maps.{values}

abbrev pub IsIn : Job → List Job → Type 0
IsIn job [] = ⊥
IsIn job (j ∷ js) = (job ≡ j) ⊎ IsIn job js

-- The answer of the query: there is none only if no job passes the filters, and else it passes them and
-- has the least id of those that do.
abbrev pub IsAnswer : (Job → Bool) → List Job → Option Job → Type 0
IsAnswer p js none = All (λ (j : Job). p j ≡ false) js
IsAnswer p js (some job) =
    IsIn job js × (p job ≡ true) × All (λ (j : Job). p j ≡ true → job.id ≤ j.id) js

pick-IsAnswer :
    (p : Job → Bool) (j : Job) (js : List Job) (o : Option Job)
    → p j ≡ true
    → IsAnswer p js o
    → IsAnswer p (j ∷ js) (pick j o)
pick-IsAnswer p j js none t h =
    (inl refl, t, (λ s. omega arith, All-imp _ _ js (λ k f g. cc (f, g)) h))
pick-IsAnswer p j js (some other) t (i, q, a) = elim (Bool-cases (ltb other.id j.id)) [
  | inl l ↦ rw l (inr i, q, (λ s. omega (arith, ltb→lt other.id j.id l), a))
  | inr l ↦ rw l (
    inl refl,
    t,
    (
      λ s. omega arith,
      All-imp (λ (k : Job). p k ≡ true → other.id ≤ k.id) (λ (k : Job). p k ≡ true → j.id ≤ k.id) js
          (λ k f g. below k (f g) l) a,
    ),
  )
]
  where
    below : (k : Job) → other.id ≤ k.id → ltb other.id j.id ≡ false → j.id ≤ k.id
    below k f l = ground (arith, f, l)

least_id-IsAnswer : (p : Job → Bool) (js : List Job) → IsAnswer p js (least_id (filterb p js))
unfolding least_id
least_id-IsAnswer p [] = tt
least_id-IsAnswer p (j ∷ js) = elim (Bool-cases (p j)) [
  | inl t ↦ rw t (pick-IsAnswer p j js (least_id (filterb p js)) t (least_id-IsAnswer p js))
  | inr f ↦ rw f (skipped j js (least_id (filterb p js)) f (least_id-IsAnswer p js))
]
  where
    skipped :
        (j : Job) (js : List Job) (o : Option Job)
        → p j ≡ false
        → IsAnswer p js o
        → IsAnswer p (j ∷ js) o
    skipped j js none f h = (f, h)
    skipped j js (some job) f (i, q, a) = (inr i, q, (λ t. cc (f, t), a))

pub find_queued-IsAnswer :
    (locked : ℕ → Bool) (platform : Platform) (jobs : Jobs)
    → IsAnswer
        (is_candidate locked platform)
        (values jobs)
        (find_queued_job_for_platform locked platform jobs)
unfolding find_queued_job_for_platform
find_queued-IsAnswer locked platform jobs =
    least_id-IsAnswer (is_candidate locked platform) (values jobs)

-- A job that may be offered to a runner of the platform.
abbrev pub IsOfferable : (ℕ → Bool) → Platform → Job → Type 0
IsOfferable locked platform job =
    (locked job.id ≡ false)
    × (job.status ≡ JobStatus.queued)
    × (job.runner_id ≡ none)
    × (job.platform ≡ platform)

-- The oldest of the jobs that may be offered, if there is one.
abbrev pub IsOldest : (ℕ → Bool) → Platform → List Job → Option Job → Type 0
IsOldest locked platform js none = All (λ (j : Job). IsOfferable locked platform j → ⊥) js
IsOldest locked platform js (some job) =
    IsIn job js
    × IsOfferable locked platform job
    × All (λ (j : Job). IsOfferable locked platform j → job.id ≤ j.id) js

status_queued : (s : JobStatus) → status_eq s JobStatus.queued ≡ true → s ≡ JobStatus.queued
unfolding status_eq
status_queued JobStatus.queued h = refl
status_queued JobStatus.running h = elim (false≢true h) [ ]
status_queued (JobStatus.complete c) h = elim (false≢true h) [ ]

and_both : (a b : Bool) → (a && b) ≡ true → (a ≡ true) × (b ≡ true)
and_both true b h = (refl, h)
and_both false b h = elim (false≢true h) [ ]

no_runner : (o : Option ℕ) → (elim o [ none ↦ true | some r ↦ false ]) ≡ true → o ≡ none
no_runner none h = refl
no_runner (some r) h = elim (false≢true h) [ ]

same_platform : (a b : Platform) → platform_eq a b ≡ true → a ≡ b
same_platform Platform.x86_64_linux Platform.x86_64_linux h = refl
same_platform Platform.aarch64_darwin Platform.aarch64_darwin h = refl
same_platform Platform.x86_64_linux Platform.aarch64_darwin h = elim (false≢true h) [ ]
same_platform Platform.aarch64_darwin Platform.x86_64_linux h = elim (false≢true h) [ ]

platform_refl : (a : Platform) → platform_eq a a ≡ true
platform_refl Platform.x86_64_linux = refl
platform_refl Platform.aarch64_darwin = refl

module _ (locked : ℕ → Bool) (platform : Platform) where
  is_candidate-IsOfferable :
      (job : Job) → is_candidate locked platform job ≡ true → IsOfferable locked platform job
  is_candidate-IsOfferable job h =
      let (free, rest) = and_both (not (locked job.id)) _ h in
      let (queued, rest') = and_both (status_eq job.status JobStatus.queued) _ rest in
      let (unclaimed, on) =
        and_both (elim job.runner_id [ none ↦ true | some r ↦ false ]) _ rest' in
      (
        ground (arith, free),
        status_queued job.status queued,
        no_runner job.runner_id unclaimed,
        same_platform job.platform platform on,
      )

  IsOfferable-is_candidate :
      (job : Job) → IsOfferable locked platform job → is_candidate locked platform job ≡ true
  unfolding status_eq
  IsOfferable-is_candidate job (free, queued, unclaimed, on) =
      rw (free, queued, unclaimed, on) (platform_refl platform)

  spelled :
      (js : List Job) (o : Option Job)
      → IsAnswer (is_candidate locked platform) js o
      → IsOldest locked platform js o
  spelled js none a = All-imp _ _ js (λ j f t. false≢true (sym f ∙ IsOfferable-is_candidate j t)) a
  spelled js (some job) (i, t, a) = (
    i,
    is_candidate-IsOfferable job t,
    All-imp _ _ js (λ j f c. f (IsOfferable-is_candidate j c)) a,
  )

  -- The job that a runner of a platform is offered is queued, has no runner, is of that platform and is
  -- not locked by another transaction, and has the least id of all such jobs; a runner is offered none
  -- only if there is no such job.
  pub find_queued-IsOldest :
      (jobs : Jobs)
      → IsOldest locked platform (values jobs) (find_queued_job_for_platform locked platform jobs)
  unfolding find_queued_job_for_platform
  find_queued-IsOldest jobs =
      spelled (values jobs) (find_queued_job_for_platform locked platform jobs)
        (find_queued-IsAnswer locked platform jobs)
