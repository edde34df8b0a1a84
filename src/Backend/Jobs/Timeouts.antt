-- ===== src/Backend/Jobs/Timeouts.antt =====
-- backend/src/job/model.rs, `find_expired_jobs` and `claim_job_for_runner`: which jobs time out.
use cloud_devenv_sh.Base.{
  ℕ, [], ◌∷◌, none, List, Bool, IsUnique, ◌≡◌, Bool-cases, Option, false, filterb, some,
  if◌then◌else◌, ◌==◌, arith, inl, true, inr, refl, ◌&&◌, ltb, ◌+◌, ◌*◌, ◌∙◌, ==_refl,
}
use cloud_devenv_sh.Base.Maps.{get, update, values, update-IsUnique, get-update}
use cloud_devenv_sh.Backend.Jobs.{
  Job, Jobs, find_expired_jobs, claim_job_for_runner, is_expired, set_claimed,
}
use cloud_devenv_sh.Protocol.{status_eq, JobStatus}
use cloud_devenv_sh.Backend.Jobs.Claims.{claim_queued, claim_taken}

-- A row stands under its own id.
abbrev pub AllKeyed : Jobs → Type 0
AllKeyed [] = Unit
AllKeyed ((k, job) ∷ jobs) = (job.id ≡ k) × AllKeyed jobs

abbrev pub has_id : ℕ → List Job → Bool
has_id id [] = false
has_id id (job ∷ jobs) = let rest = has_id id jobs in if job.id == id then true else rest

abbrev holds_of : (Job → Bool) → Option Job → Bool
holds_of p none = false
holds_of p (some job) = p job

has_id-filterb :
    (p : Job → Bool) (id : ℕ) (jobs : Jobs)
    → IsUnique jobs
    → AllKeyed jobs
    → has_id id (filterb p (values jobs)) ≡ holds_of p (get id jobs)
unfolding get
has_id-filterb p id [] u k = refl
has_id-filterb p id ((j, job) ∷ jobs) u k =
    ground (arith, has_id-filterb p id jobs u.1 k.1, u.0, k.0)

-- In a table whose rows stand under their ids, the jobs that a check for expired ones lists are
-- exactly those that run and were started longer ago than the timeout; a job without a start is none.
pub expired_exactly :
    (id now timeout_seconds : ℕ) (jobs : Jobs)
    → IsUnique jobs
    → AllKeyed jobs
    → has_id id (find_expired_jobs now timeout_seconds jobs) ≡ (elim (get id jobs) [
      | none ↦ false
      | some job ↦ elim job.started_at [
        | none ↦ false
        | some t ↦ status_eq job.status JobStatus.running && ltb (t + timeout_seconds * 1000000) now
      ]
    ])
unfolding find_expired_jobs
expired_exactly id now timeout_seconds jobs u k =
    has_id-filterb (is_expired now timeout_seconds) id jobs u k ∙ spelled (get id jobs)
  where
    spelled :
        (o : Option Job)
        → holds_of (is_expired now timeout_seconds) o ≡ (elim o [
          | none ↦ false
          | some job ↦ elim job.started_at [
            | none ↦ false
            | some t ↦
                status_eq job.status JobStatus.running && ltb (t + timeout_seconds * 1000000) now
          ]
        ])
    spelled o = ground arith

update-AllKeyed :
    (id : ℕ) (f : Job → Job) (jobs : Jobs)
    → ((job : Job) → (f job).id ≡ job.id)
    → AllKeyed jobs
    → AllKeyed (update id f jobs)
unfolding update
update-AllKeyed id f [] h k = k
update-AllKeyed id f ((j, job) ∷ jobs) h k = elim (Bool-cases (j == id)) [
  | inl e ↦ simp e (h job ∙ k.0, update-AllKeyed id f jobs h k.1)
  | inr e ↦ simp e (k.0, update-AllKeyed id f jobs h k.1)
]

-- In a table whose rows stand under their ids, a job without a start that a runner claims has none after
-- the claim either: no check of that table lists it as expired, however long after the claim.
pub claimed_never_expires :
    (id runner_id now timeout_seconds : ℕ) (job : Job) (jobs : Jobs)
    → IsUnique jobs
    → AllKeyed jobs
    → get id jobs ≡ some job
    → job.started_at ≡ none
    → has_id id (find_expired_jobs now timeout_seconds (claim_job_for_runner id runner_id jobs).0)
      ≡ false
claimed_never_expires id runner_id now timeout_seconds job jobs u k e s =
    elim (Bool-cases (status_eq job.status JobStatus.queued)) [
      | inl q ↦ rw (claim_queued id runner_id jobs job e q) (
          expired_exactly id now timeout_seconds (update id (set_claimed runner_id) jobs)
            (update-IsUnique id (set_claimed runner_id) jobs u)
            (update-AllKeyed id (set_claimed runner_id) jobs (λ j. refl) k)
          ∙ rw (get-update id id (set_claimed runner_id) jobs, ==_refl id, e, s) refl)
      | inr q ↦
          rw (claim_taken id runner_id jobs job e q)
            (expired_exactly id now timeout_seconds jobs u k ∙ rw (e, s) refl)
    ]
