-- ===== src/Runner/Jobs.antt =====
-- runner/src/job_manager.rs: the jobs of a runner, and the events it sends when a status changes.
-- Each method holds the lock of the table from its first read to its send, so a method is one step.
pub mod Lifecycle
mod Counts
mod Tests
use cloud_devenv_sh.Base.{
  Bool, List, Map, [], ℕ, Option, if◌then◌else◌, length, true, ◌+◌, ◌∷◌, false, filterb, ◌++◌, none,
  some, not,
}
use cloud_devenv_sh.Protocol.{JobStatus, CompletionStatus, JobConfig, queued, status_eq}
use cloud_devenv_sh.Base.Maps.{contains_key, values, get, insert, update}

pub record JobInfo : Type 0 where
  pub id : ℕ
  pub config : JobConfig
  pub status : JobStatus

unfoldable pub new_info : ℕ → JobConfig → JobInfo
new_info id config = record { id = id; config = config; status = JobStatus.queued }

pub record JobStatusEvent : Type 0 where
  pub job_id : ℕ
  pub status : JobStatus

pub record JobManager : Type 0 where
  pub jobs : Map JobInfo
  -- what was sent on `status_tx`, oldest first; a send fails once the receiver is gone
  pub sent : List JobStatusEvent
  pub receiver_alive : Bool

unfoldable pub new : JobManager
new = record { jobs = []; sent = []; receiver_alive = true }

-- A failed send is logged, and changes nothing.
unfoldable pub send_event : JobStatusEvent → JobManager → JobManager
send_event event m = if m.receiver_alive then record m { sent = m.sent ++ event ∷ [] } else m

unfoldable pub register_job : ℕ → JobConfig → JobManager → JobManager
unfolding send_event new_info
register_job id config m =
    send_event (record { job_id = id; status = JobStatus.queued })
      (record m { jobs = insert id (new_info id config) m.jobs })

unfoldable pub transition_allowed : JobStatus → JobStatus → Bool
transition_allowed JobStatus.queued JobStatus.running = true
transition_allowed JobStatus.queued (JobStatus.complete CompletionStatus.cancelled) = true
transition_allowed JobStatus.running (JobStatus.complete c) = true
transition_allowed _ _ = false

unfoldable pub set_status : JobStatus → JobInfo → JobInfo
set_status status job = record job { status = status }

-- `none` is the error "Job not found".
unfoldable pub update_job_status : ℕ → JobStatus → JobManager → Option JobManager
unfolding send_event set_status
update_job_status job_id status m = elim (get job_id m.jobs) [
  | none ↦ none
  | some job ↦
      if status_eq job.status status
      then some m
      else if not (transition_allowed job.status status)
      then some m
      else some (
          send_event (record { job_id = job_id; status = status })
            (record m { jobs = update job_id (set_status status) m.jobs }))
]

unfoldable pub get_job : ℕ → JobManager → Option JobInfo
get_job job_id m = get job_id m.jobs

unfoldable pub set_job_running : ℕ → JobManager → Option JobManager
set_job_running job_id m = update_job_status job_id JobStatus.running m

unfoldable pub complete_job : ℕ → CompletionStatus → JobManager → Option JobManager
complete_job job_id c m = update_job_status job_id (JobStatus.complete c) m

unfoldable pub job_exists : ℕ → JobManager → Bool
job_exists job_id m = contains_key job_id m.jobs

unfoldable pub job_count : JobManager → ℕ
job_count m = length m.jobs

abbrev pub is_active : JobInfo → Bool
is_active job = elim job.status [ JobStatus.complete c ↦ false | _ ↦ true ]

unfoldable pub active_job_count : JobManager → ℕ
active_job_count m = length (filterb is_active (values m.jobs))

-- One round of the loop of `get_job_counts`, over (active, queued, running).
abbrev pub count_job : JobStatus → ℕ × ℕ × ℕ → ℕ × ℕ × ℕ
count_job JobStatus.queued (a, q, r) = (a + 1, q + 1, r)
count_job JobStatus.running (a, q, r) = (a + 1, q, r + 1)
count_job (JobStatus.complete c) counts = counts

unfoldable pub count_jobs : List JobInfo → ℕ × ℕ × ℕ → ℕ × ℕ × ℕ
count_jobs [] counts = counts
count_jobs (job ∷ jobs) counts = count_jobs jobs (count_job job.status counts)

unfoldable pub get_job_counts : JobManager → ℕ × ℕ × ℕ
get_job_counts m = count_jobs (values m.jobs) (0, 0, 0)
