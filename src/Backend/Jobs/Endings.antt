-- ===== src/Backend/Jobs/Endings.antt =====
-- backend/src/job/model.rs, `cancel` and `retry`: how a job ends, and how it is run again.
use cloud_devenv_sh.Base.{
  ℕ, none, ◌≡◌, false, arith, some, refl, ◌⊎◌, ==_refl, ◌==◌, if◌then◌else◌, ==_iff, true, inl,
  Bool-cases, inr, Option-cases, subst,
}
use cloud_devenv_sh.Backend.Jobs.{
  complete, retried, cancel, is_retryable, retry, to_vm_config, Job, Jobs, Result, Failure,
  set_complete, set_retried, is_cancellable,
}
use cloud_devenv_sh.Protocol.{JobStatus, completion_eq, CompletionStatus}
use cloud_devenv_sh.Base.Maps.{get, update, get-update, insert, get-insert}

-- Every branch of a cancellation: a job that is not there is an error; a job that is queued or running,
-- which is what `is_cancellable` says, is cancelled in its row with the time, and nothing else of the
-- row or of the table changes; a complete job, and then the whole table, stays as it was.
pub cancel-branches :
    (job_id now : ℕ) (jobs : Jobs)
    → ((job : Job) → get job_id jobs ≡ some job → job.id ≡ job_id)
    → ((get job_id jobs ≡ none) × (cancel job_id now jobs ≡ Result.err Failure.not_found))
      ⊎ ((job : Job) × (get job_id jobs ≡ some job)
          × (((is_cancellable job ≡ true)
                × (cancel job_id now jobs
                    ≡ Result.ok (
                      update job_id (set_complete now CompletionStatus.cancelled) jobs,
                      true,
                      some (set_complete now CompletionStatus.cancelled job),
                    )))
              ⊎ ((is_cancellable job ≡ false)
                  × (cancel job_id now jobs ≡ Result.ok (jobs, false, some job)))))
unfolding cancel complete is_cancellable
cancel-branches job_id now jobs keyed = elim (Option-cases (get job_id jobs)) [
  | inl e ↦ inl (e, rw (e, cancel) refl)
  | inr (job, e) ↦ inr (job, e, status job e job.status refl)
]
  where
    status :
        (job : Job) (e : get job_id jobs ≡ some job) (s : JobStatus)
        → job.status ≡ s
        → ((is_cancellable job ≡ true)
            × (cancel job_id now jobs
                ≡ Result.ok (
                  update job_id (set_complete now CompletionStatus.cancelled) jobs,
                  true,
                  some (set_complete now CompletionStatus.cancelled job),
                )))
          ⊎ ((is_cancellable job ≡ false)
              × (cancel job_id now jobs ≡ Result.ok (jobs, false, some job)))
    status job e JobStatus.queued f = inl (ground (arith, f), ground (arith, e, f, keyed job e))
    status job e JobStatus.running f = inl (ground (arith, f), ground (arith, e, f, keyed job e))
    status job e (JobStatus.complete c) f =
        inr (ground (arith, f), ground (arith, e, f, keyed job e))

not_retryable :
    (c : CompletionStatus) (job : Job)
    → job.status ≡ JobStatus.complete c
    → is_retryable job ≡ false
    → c ≡ CompletionStatus.success
unfolding is_retryable completion_eq
not_retryable CompletionStatus.failed job f r = ground (arith, f, r)
not_retryable CompletionStatus.success job f r = refl
not_retryable CompletionStatus.cancelled job f r = ground (arith, f, r)
not_retryable CompletionStatus.timed_out job f r = ground (arith, f, r)
not_retryable CompletionStatus.skipped job f r = ground (arith, f, r)

-- A retry under a new id is refused, with the table as it was, unless the job is complete without
-- success. Else it adds a queued job of the same platform and sizes that no runner has, links the two
-- jobs to each other, and changes nothing else of the old job and of all others.
pub retry-links :
    (id now : ℕ) (job : Job) (jobs : Jobs)
    → get job.id jobs ≡ some job
    → get id jobs ≡ none
    → ((retry id now job jobs ≡ Result.err Failure.rollback)
        × ((c : CompletionStatus)
            → job.status ≡ JobStatus.complete c
            → c ≡ CompletionStatus.success))
      ⊎ ((after : Jobs) × (again : Job) × (retry id now job jobs ≡ Result.ok (after, again))
          × (get id after ≡ some again)
          × (to_vm_config again ≡ to_vm_config job)
          × (again.status ≡ JobStatus.queued)
          × (again.runner_id ≡ none)
          × (again.previous_job_id ≡ some job.id)
          × (get job.id after ≡ some (record job { retried_job_id = some id }))
          × ((j : ℕ) → (id == j) ≡ false → (job.id == j) ≡ false → get j after ≡ get j jobs))
unfolding retry to_vm_config
retry-links id now job jobs e fresh = elim (Bool-cases (is_retryable job)) [
  | inr r ↦ inl (rw (r, retry) refl, λ c f. not_retryable c job f r)
  | inl r ↦ inr (
    update job.id (set_retried id) (insert id (retried id now job) jobs),
    retried id now job,
    rw (r, retry) refl,
    ground (arith, added id, ==_refl id),
    refl,
    refl,
    refl,
    refl,
    ground (arith, added job.id, ==_refl job.id, distinct),
    λ j f g. ground (arith, added j, f, g),
  )
]
  where
    distinct : (id == job.id) ≡ false
    distinct = elim (Bool-cases (id == job.id)) [
      | inl s ↦ cc (e, subst (λ k. get k jobs ≡ none) ((==_iff id job.id).0 s) fresh)
      | inr d ↦ d
    ]

    added :
        (j : ℕ)
        → get j (update job.id (set_retried id) (insert id (retried id now job) jobs)) ≡ (
            if id == j
            then some (retried id now job)
            else if job.id == j
            then some (set_retried id job)
            else get j jobs)
    added j = ground (
      arith,
      e,
      fresh,
      ==_iff id j,
      ==_iff job.id j,
      get-update job.id j (set_retried id) (insert id (retried id now job) jobs),
      get-insert id j (retried id now job) jobs,
    )
