-- ===== src/Backend/Jobs.antt =====
-- backend/src/job/model.rs: the rows of the table `jobs` and the statements on it.
-- The table is an association list from the primary key; a timestamp is a number of microseconds. A
-- statement runs on a database that answers: what is left of `diesel::result::Error` is `NotFound` and
-- `RollbackTransaction`. The id that `Uuid::now_v7` draws and the time are arguments.
mod Texts
pub mod Claims
pub mod Queue
mod Timeouts
mod Endings
pub mod Tests
use cloud_devenv_sh.Base.{
  ℕ, Bool, List, Map, Option, if◌then◌else◌, some, false, filterb, ltb, none, not, true, ◌&&◌, ◌+◌,
  ◌∷◌, [], ◌*◌,
}
use Prim.Native.String.{String}
use text.Mathlib.Text.{◌==◌ as str_eq}
use cloud_devenv_sh.Protocol.{CompletionStatus, JobStatus, Platform, Vm, status_eq, completion_eq}
use cloud_devenv_sh.Base.Maps.{get, update, insert, values}

unfoldable pub status_to_sql : JobStatus → String
status_to_sql JobStatus.queued = "queued"
status_to_sql JobStatus.running = "running"
status_to_sql (JobStatus.complete CompletionStatus.failed) = "failed"
status_to_sql (JobStatus.complete CompletionStatus.success) = "success"
status_to_sql (JobStatus.complete CompletionStatus.cancelled) = "cancelled"
status_to_sql (JobStatus.complete CompletionStatus.timed_out) = "timed_out"
status_to_sql (JobStatus.complete CompletionStatus.skipped) = "skipped"

-- `none` is the error "Unrecognized status".
unfoldable pub status_from_sql : String → Option JobStatus
status_from_sql s =
    if str_eq s "queued"
    then some JobStatus.queued
    else if str_eq s "running"
    then some JobStatus.running
    else if str_eq s "failed"
    then some (JobStatus.complete CompletionStatus.failed)
    else if str_eq s "success"
    then some (JobStatus.complete CompletionStatus.success)
    else if str_eq s "cancelled"
    then some (JobStatus.complete CompletionStatus.cancelled)
    else if str_eq s "timed_out"
    then some (JobStatus.complete CompletionStatus.timed_out)
    else if str_eq s "skipped"
    then some (JobStatus.complete CompletionStatus.skipped)
    else none

-- `cpus` is an `i32` and `memory_mb` an `i64`, each as the number of its bits. Both platforms of the
-- source are the one `Platform`, since the two `From` between them are the identity.
pub record Job : Type 0 where
  pub id : ℕ
  pub platform : Platform
  pub status : JobStatus
  pub started_at : Option ℕ
  pub finished_at : Option ℕ
  pub runner_id : Option ℕ
  pub cpus : ℕ
  pub memory_mb : ℕ
  pub retried_job_id : Option ℕ
  pub created_at : ℕ
  pub previous_job_id : Option ℕ

abbrev pub Jobs : Type 0
Jobs = Map Job

pub data Failure : Type 0 where
  not_found rollback : Failure

pub data Result {ℓ} (A : Type ℓ) : Type ℓ where
  ok : A → Result A
  err : Failure → Result A

abbrev pub unwrap_or : Option ℕ → ℕ → ℕ
unwrap_or none d = d
unwrap_or (some n) d = n

unfoldable pub new_job : ℕ → ℕ → Platform → Option ℕ → Option ℕ → Jobs → Jobs × Job
new_job id now platform cpus memory_mb jobs =
    let job : Job = record {
      id = id;
      platform = platform;
      status = JobStatus.queued;
      started_at = none;
      finished_at = none;
      runner_id = none;
      cpus = unwrap_or cpus 2;
      memory_mb = unwrap_or memory_mb 256;
      retried_job_id = none;
      created_at = now;
      previous_job_id = none;
    } in
    (insert id job jobs, job)

unfoldable pub get_by_id : ℕ → Jobs → Result Job
get_by_id id jobs = elim (get id jobs) [
  | none ↦ Result.err Failure.not_found
  | some job ↦ Result.ok job
]

abbrev pub set_status : JobStatus → Job → Job
set_status status job = record job { status = status }

unfoldable pub update_status : JobStatus → Job → Jobs → Jobs × Job
update_status status job jobs = (update job.id (set_status status) jobs, set_status status job)

abbrev pub set_assigned : ℕ → ℕ → Job → Job
set_assigned runner_id now job = record job {
  runner_id = some runner_id;
  started_at = some now;
  status = JobStatus.running;
}

unfoldable pub assign_to_runner : ℕ → ℕ → Job → Jobs → Jobs × Job
assign_to_runner runner_id now job jobs =
    (update job.id (set_assigned runner_id now) jobs, set_assigned runner_id now job)

abbrev pub set_complete : ℕ → CompletionStatus → Job → Job
set_complete now c job = record job { finished_at = some now; status = JobStatus.complete c }

unfoldable pub complete : ℕ → CompletionStatus → Job → Jobs → Jobs × Job
complete now c job jobs = (update job.id (set_complete now c) jobs, set_complete now c job)

-- `started_at.lt(cutoff_time)`, which SQL does not hold of a null.
abbrev pub started_before : ℕ → ℕ → Option ℕ → Bool
started_before now timeout_seconds none = false
started_before now timeout_seconds (some t) = ltb (t + timeout_seconds * 1000000) now

abbrev pub is_expired : ℕ → ℕ → Job → Bool
is_expired now timeout_seconds job =
    status_eq job.status JobStatus.running && started_before now timeout_seconds job.started_at

unfoldable pub find_expired_jobs : ℕ → ℕ → Jobs → List Job
find_expired_jobs now timeout_seconds jobs = filterb (is_expired now timeout_seconds) (values jobs)

abbrev pub set_claimed : ℕ → Job → Job
set_claimed runner_id job = record job { status = JobStatus.running; runner_id = some runner_id }

-- With the number of rows that were updated.
unfoldable pub claim_job_for_runner : ℕ → ℕ → Jobs → Jobs × ℕ
claim_job_for_runner job_id runner_id jobs = elim (get job_id jobs) [
  | none ↦ (jobs, 0)
  | some job ↦
      if status_eq job.status JobStatus.queued
      then (update job_id (set_claimed runner_id) jobs, 1)
      else (jobs, 0)
]

unfoldable pub update_job_status : ℕ → JobStatus → Jobs → Jobs
update_job_status job_id status jobs = update job_id (set_status status) jobs

abbrev pub platform_eq : Platform → Platform → Bool
platform_eq Platform.x86_64_linux Platform.x86_64_linux = true
platform_eq Platform.aarch64_darwin Platform.aarch64_darwin = true
platform_eq _ _ = false

-- The rows that the query may return; `locked` are the rows that other transactions hold.
abbrev pub is_candidate : (ℕ → Bool) → Platform → Job → Bool
is_candidate locked platform job =
    not (locked job.id)
    && (status_eq job.status JobStatus.queued
        && (elim job.runner_id [ none ↦ true | some r ↦ false ]
            && platform_eq job.platform platform))

abbrev pub pick : Job → Option Job → Option Job
pick job none = some job
pick job (some other) = if ltb other.id job.id then some other else some job

-- `order_by(jobs::id).first`.
unfoldable pub least_id : List Job → Option Job
least_id [] = none
least_id (job ∷ jobs) = let rest = least_id jobs in pick job rest

unfoldable pub find_queued_job_for_platform : (ℕ → Bool) → Platform → Jobs → Option Job
find_queued_job_for_platform locked platform jobs =
    least_id (filterb (is_candidate locked platform) (values jobs))

unfoldable pub is_retryable : Job → Bool
is_retryable job = elim job.status [
  | JobStatus.complete c ↦ not (completion_eq c CompletionStatus.success)
  | _ ↦ false
]

abbrev pub retried : ℕ → ℕ → Job → Job
retried id now job = record {
  id = id;
  platform = job.platform;
  status = JobStatus.queued;
  started_at = none;
  finished_at = none;
  runner_id = none;
  cpus = job.cpus;
  memory_mb = job.memory_mb;
  retried_job_id = none;
  created_at = now;
  previous_job_id = some job.id;
}

abbrev pub set_retried : ℕ → Job → Job
set_retried id job = record job { retried_job_id = some id }

unfoldable pub retry : ℕ → ℕ → Job → Jobs → Result (Jobs × Job)
retry id now job jobs =
    if is_retryable job
    then Result.ok
        (update job.id (set_retried id) (insert id (retried id now job) jobs), retried id now job)
    else Result.err Failure.rollback

unfoldable pub cancel : ℕ → ℕ → Jobs → Result (Jobs × Bool × Option Job)
unfolding complete
cancel job_id now jobs = elim (get job_id jobs) [
  | none ↦ Result.err Failure.not_found
  | some job ↦ elim job.status [
    | JobStatus.queued ↦
        let (after, cancelled) = complete now CompletionStatus.cancelled job jobs in
        Result.ok (after, true, some cancelled)
    | JobStatus.running ↦
        let (after, cancelled) = complete now CompletionStatus.cancelled job jobs in
        Result.ok (after, true, some cancelled)
    | JobStatus.complete c ↦ Result.ok (jobs, false, some job)
  ]
]

unfoldable pub is_cancellable : Job → Bool
is_cancellable job = elim job.status [
  | JobStatus.queued ↦ true
  | JobStatus.running ↦ true
  | JobStatus.complete c ↦ false
]

-- `cpus as usize` of an `i32`: the sign is extended.
unfoldable pub to_vm_config : Job → Vm
to_vm_config job = record {
  cpu_count = if ltb job.cpus 2147483648 then job.cpus else job.cpus + 18446744069414584320;
  memory_size_mb = job.memory_mb;
  platform = job.platform;
}
