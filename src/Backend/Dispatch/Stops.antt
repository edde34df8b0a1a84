-- ===== src/Backend/Dispatch/Stops.antt =====
-- backend/src/runner/serve.rs, `job_timeout_checker`, and backend/src/job/serve.rs, `cancel_job`: how the
-- server stops a job.
use cloud_devenv_sh.Backend.Jobs.{complete, Job, Jobs, set_complete, cancel, is_cancellable}
use cloud_devenv_sh.Base.{
  true, false, ℕ, [], ◌∷◌, none, refl, ◌≡◌, some, List, ◌++◌, ◌⊎◌, Bool, Option-cases, inl, inr,
  arith, ==_refl, Bool-cases, ltb, length, if◌then◌else◌, ◌≢◌, ◌<◌,
}
use cloud_devenv_sh.Backend.Dispatch.{
  time_out, try_send_to, github_update_status, World, Server, set_finished, push, cancel_job,
  StatusCode, notify_cancelled,
}
use cloud_devenv_sh.Base.Maps.{get, update, get-update}
use cloud_devenv_sh.Protocol.{ServerMessage, JobStatus, CompletionStatus, status_eq, completion_eq}

ended_row :
    (answered : Bool) (now id : ℕ) (c : CompletionStatus) (row : Job) (jobs : Jobs)
    → get id jobs ≡ some row
    → get id (
        github_update_status answered now
          (JobStatus.complete c)
          id
          (update id (set_complete now c) jobs))
      ≡ some (record row { status = JobStatus.complete c; finished_at = some now })
unfolding github_update_status
ended_row true now id c row jobs e = ground (
  arith,
  e,
  ==_refl id,
  get-update id id (set_complete now c) jobs,
  get-update id id (set_finished now) (update id (set_complete now c) jobs),
)
ended_row false now id c row jobs e =
    ground (arith, e, ==_refl id, get-update id id (set_complete now c) jobs)

-- A round of the check for an expired job of a runner either puts the message that it timed out into the
-- runner's channel, and leaves the table to the runner's answer, or, when the runner is gone or its
-- channel is full, completes the job in the table itself, and sends nothing.
pub time_out-branches :
    (w : World) (runner_id : ℕ) (job row : Job) (s : Server)
    → job.runner_id ≡ some runner_id
    → get job.id s.jobs ≡ some row
    → ((pending : List ServerMessage) × (get runner_id (time_out w job s).channels
          ≡ some (pending ++ ServerMessage.job_timed_out job.id ∷ []))
        × ((time_out w job s).jobs ≡ s.jobs))
      ⊎ (((time_out w job s).channels ≡ s.channels)
          × (get job.id (time_out w job s).jobs
              ≡ some (record row {
                status = JobStatus.complete CompletionStatus.timed_out;
                finished_at = some w.now;
              })))
unfolding time_out try_send_to complete
time_out-branches w runner_id job row s e f = elim (Option-cases (get runner_id s.channels)) [
  | inl g ↦ inr (
    ground (arith, e, g),
    ground (
      arith,
      e,
      g,
      ended_row w.github_answers w.now job.id CompletionStatus.timed_out row s.jobs f,
    ),
  )
  | inr (pending, g) ↦ elim (Bool-cases (ltb (length pending) 32)) [
    | inl l ↦ inl (
      pending,
      ground (
        arith,
        e,
        g,
        l,
        ==_refl runner_id,
        get-update runner_id runner_id (push (ServerMessage.job_timed_out job.id)) s.channels,
      ),
      ground (arith, e, g, l),
    )
    | inr l ↦ inr (
      ground (arith, e, g, l),
      ground (
        arith,
        e,
        g,
        l,
        ended_row w.github_answers w.now job.id CompletionStatus.timed_out row s.jobs f,
      ),
    )
  ]
]

-- The answer to a cancellation: not found for a job that is not there, a bad request for one that is
-- complete, each with the server as it was, and else success.
pub cancel_job-code :
    (w : World) (id : ℕ) (s : Server)
    → ((cancel_job w id s).1 ≡ (elim (get id s.jobs) [
      | none ↦ StatusCode.code_not_found
      | some job ↦ if is_cancellable job then StatusCode.code_ok else StatusCode.bad_request
    ]))
      × ((cancel_job w id s).1 ≢ StatusCode.code_ok → (cancel_job w id s).0 ≡ s)
unfolding cancel_job cancel is_cancellable
cancel_job-code w id s = elim (Option-cases (get id s.jobs)) [
  | inl e ↦ (ground (arith, e), λ n. ground (arith, e))
  | inr (job, e) ↦ split job job.status e refl
]
  where
    split :
        (job : Job) (status : JobStatus)
        → get id s.jobs ≡ some job
        → job.status ≡ status
        → ((cancel_job w id s).1 ≡ (elim (get id s.jobs) [
          | none ↦ StatusCode.code_not_found
          | some j ↦ if is_cancellable j then StatusCode.code_ok else StatusCode.bad_request
        ]))
          × ((cancel_job w id s).1 ≢ StatusCode.code_ok → (cancel_job w id s).0 ≡ s)
    split job JobStatus.queued e f = (ground (arith, e, f), λ n. ground (arith, e, f, n))
    split job JobStatus.running e f = (ground (arith, e, f), λ n. ground (arith, e, f, n))
    split job (JobStatus.complete c) e f = (ground (arith, e, f), λ n. ground (arith, e, f, n))

-- The cancellation of a job that is queued or running, with a runner whose channel has room, answers
-- success, ends the job in the table with the time, and puts the message for its runner into the
-- channel.
pub cancel_job-stops :
    (w : World) (id runner_id : ℕ) (job : Job) (pending : List ServerMessage) (s : Server)
    → get id s.jobs ≡ some job
    → job.id ≡ id
    → is_cancellable job ≡ true
    → job.runner_id ≡ some runner_id
    → get runner_id s.channels ≡ some pending
    → length pending < 32
    → ((cancel_job w id s).1 ≡ StatusCode.code_ok)
      × (get id (cancel_job w id s).0.jobs
          ≡ some (record job {
            status = JobStatus.complete CompletionStatus.cancelled;
            finished_at = some w.now;
          }))
      × (get runner_id (cancel_job w id s).0.channels
          ≡ some (pending ++ ServerMessage.job_cancelled id ∷ []))
unfolding cancel_job cancel is_cancellable complete notify_cancelled try_send_to status_eq
    completion_eq
cancel_job-stops w id runner_id job pending s e k c r g l = stopped job.status refl
  where
    row :
        get id (
          github_update_status w.github_answers w.now
            (JobStatus.complete CompletionStatus.cancelled)
            id
            (update id (set_complete w.now CompletionStatus.cancelled) s.jobs))
        ≡ some (record job {
          status = JobStatus.complete CompletionStatus.cancelled;
          finished_at = some w.now;
        })
    row = ended_row w.github_answers w.now id CompletionStatus.cancelled job s.jobs e

    told :
        get runner_id (update runner_id (push (ServerMessage.job_cancelled id)) s.channels)
        ≡ some (pending ++ ServerMessage.job_cancelled id ∷ [])
    told = ground (
      arith,
      g,
      ==_refl runner_id,
      get-update runner_id runner_id (push (ServerMessage.job_cancelled id)) s.channels,
    )

    stopped :
        (status : JobStatus)
        → job.status ≡ status
        → ((cancel_job w id s).1 ≡ StatusCode.code_ok)
          × (get id (cancel_job w id s).0.jobs
              ≡ some (record job {
                status = JobStatus.complete CompletionStatus.cancelled;
                finished_at = some w.now;
              }))
          × (get runner_id (cancel_job w id s).0.channels
              ≡ some (pending ++ ServerMessage.job_cancelled id ∷ []))
    stopped JobStatus.queued f = (
      ground (arith, e, f),
      ground (arith, e, f, k, r, g, l, row),
      ground (arith, e, f, k, r, g, l, told),
    )
    stopped JobStatus.running f = (
      ground (arith, e, f),
      ground (arith, e, f, k, r, g, l, row),
      ground (arith, e, f, k, r, g, l, told),
    )
    stopped (JobStatus.complete d) f = ground (arith, c, f)
