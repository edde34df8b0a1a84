-- ===== src/Backend/Jobs/Claims.antt =====
-- backend/src/job/model.rs, `claim_job_for_runner`: who gets a job.
use cloud_devenv_sh.Base.{
  ℕ, [], ◌∷◌, none, List, ◌+◌, ◌≤◌, arith, ◌≡◌, refl, some, false, ◌⊎◌, ◌≢◌, ◌==◌, Option-cases,
  true, inl, ◌↔◌, ==_refl, inr, Bool-cases,
}
use cloud_devenv_sh.Backend.Jobs.{claim_job_for_runner, Jobs, Job, set_claimed}
use cloud_devenv_sh.Protocol.{status_eq, JobStatus}
use cloud_devenv_sh.Base.Maps.{get, update, get-update}

pub claim_absent :
    (id r : ℕ) (jobs : Jobs) → get id jobs ≡ none → claim_job_for_runner id r jobs ≡ (jobs, 0)
unfolding claim_job_for_runner
claim_absent id r jobs e = rw (e, claim_job_for_runner) refl

pub claim_taken :
    (id r : ℕ) (jobs : Jobs) (job : Job)
    → get id jobs ≡ some job
    → status_eq job.status JobStatus.queued ≡ false
    → claim_job_for_runner id r jobs ≡ (jobs, 0)
unfolding claim_job_for_runner
claim_taken id r jobs job e h = rw (e, h, claim_job_for_runner) refl

pub claim_queued :
    (id r : ℕ) (jobs : Jobs) (job : Job)
    → get id jobs ≡ some job
    → status_eq job.status JobStatus.queued ≡ true
    → claim_job_for_runner id r jobs ≡ (update id (set_claimed r) jobs, 1)
unfolding claim_job_for_runner
claim_queued id r jobs job e h = rw (e, h, claim_job_for_runner) refl

pub IsQueued-status_eq :
    (s : JobStatus) → (status_eq s JobStatus.queued ≡ true) ↔ (s ≡ JobStatus.queued)
unfolding status_eq
IsQueued-status_eq JobStatus.queued = (λ e. refl, λ e. refl)
IsQueued-status_eq JobStatus.running = (λ e. cc, λ e. cc)
IsQueued-status_eq (JobStatus.complete c) = (λ e. cc, λ e. cc)

pub running_busy : status_eq JobStatus.running JobStatus.queued ≡ false
unfolding status_eq
running_busy = refl

-- Every branch of a claim: it takes one row exactly if the job is there and queued; then the job runs
-- for that runner with the rest of its row as before, and else the table is as before. No other row
-- changes.
pub claim-takes :
    (job_id runner_id : ℕ) (jobs : Jobs)
    → (((job : Job) × (get job_id jobs ≡ some job)
          × (job.status ≡ JobStatus.queued)
          × ((claim_job_for_runner job_id runner_id jobs).1 ≡ 1)
          × (get job_id (claim_job_for_runner job_id runner_id jobs).0
              ≡ some (record job { status = JobStatus.running; runner_id = some runner_id })))
        ⊎ (((job : Job) → get job_id jobs ≡ some job → job.status ≢ JobStatus.queued)
            × (claim_job_for_runner job_id runner_id jobs ≡ (jobs, 0))))
      × ((j : ℕ)
          → (job_id == j) ≡ false
          → get j (claim_job_for_runner job_id runner_id jobs).0 ≡ get j jobs)
claim-takes job_id runner_id jobs = elim (Option-cases (get job_id jobs)) [
  | inl e ↦ rw (claim_absent job_id runner_id jobs e) (inr (λ job f. cc (e, f), refl), λ j h. refl)
  | inr (job, e) ↦ elim (Bool-cases (status_eq job.status JobStatus.queued)) [
    | inl q ↦ rw (claim_queued job_id runner_id jobs job e q) (
      inl (job, e, (IsQueued-status_eq job.status).0 q, refl, here job e),
      λ j h. ground (arith, h, get-update job_id j (set_claimed runner_id) jobs),
    )
    | inr q ↦ rw (claim_taken job_id runner_id jobs job e q) (
      inr (λ k f n. ground (arith, e, f, q, (IsQueued-status_eq k.status).1 n), refl),
      λ j h. refl,
    )
  ]
]
  where
    here :
        (job : Job)
        → get job_id jobs ≡ some job
        → get job_id (update job_id (set_claimed runner_id) jobs)
          ≡ some (record job { status = JobStatus.running; runner_id = some runner_id })
    here job e =
        ground (arith, e, ==_refl job_id, get-update job_id job_id (set_claimed runner_id) jobs)

-- Runners that claim the same job one after the other: how many of them got it.
abbrev pub claims : ℕ → List ℕ → Jobs → ℕ
claims job_id [] jobs = 0
claims job_id (r ∷ rs) jobs =
    let rest = claims job_id rs (claim_job_for_runner job_id r jobs).0 in
    (claim_job_for_runner job_id r jobs).1 + rest

claims_of_taken :
    (job_id : ℕ) (rs : List ℕ) (jobs : Jobs) (job : Job)
    → get job_id jobs ≡ some job
    → status_eq job.status JobStatus.queued ≡ false
    → claims job_id rs jobs ≡ 0
claims_of_taken job_id [] jobs job e h = refl
claims_of_taken job_id (r ∷ rs) jobs job e h =
    rw (claim_taken job_id r jobs job e h) (omega (arith, claims_of_taken job_id rs jobs job e h))

claims_of_absent :
    (job_id : ℕ) (rs : List ℕ) (jobs : Jobs) → get job_id jobs ≡ none → claims job_id rs jobs ≡ 0
claims_of_absent job_id [] jobs e = refl
claims_of_absent job_id (r ∷ rs) jobs e =
    rw (claim_absent job_id r jobs e) (omega (arith, claims_of_absent job_id rs jobs e))

-- However many runners claim a job, and in whatever order, at most one of them gets it.
pub claim-IsExclusive : (job_id : ℕ) (rs : List ℕ) (jobs : Jobs) → claims job_id rs jobs ≤ 1
claim-IsExclusive job_id [] jobs = omega arith
claim-IsExclusive job_id (r ∷ rs) jobs = elim (Option-cases (get job_id jobs)) [
  | inl e ↦ omega (arith, claims_of_absent job_id (r ∷ rs) jobs e)
  | inr (job, e) ↦ elim (Bool-cases (status_eq job.status JobStatus.queued)) [
    | inl q ↦ rw (claim_queued job_id r jobs job e q) (
        omega (
          arith,
          claims_of_taken job_id rs (update job_id (set_claimed r) jobs) (set_claimed r job)
              (ground (arith, e, ==_refl job_id, get-update job_id job_id (set_claimed r) jobs))
              running_busy,
        ))
    | inr q ↦ omega (arith, claims_of_taken job_id (r ∷ rs) jobs job e q)
  ]
]
