-- ===== src/Backend/Dispatch.antt =====
-- backend/src/runner/serve.rs, backend/src/runner/model.rs and the cancellation of
-- backend/src/job/serve.rs: the connected runners, and what is sent to them.
-- GitHub and the sockets are not under the repository: whether GitHub takes an update, and whether a
-- socket takes a message, are arguments, and so are the time and the rows that others lock.
mod Offers
mod Stops
mod Upgrade
mod Tests
use cloud_devenv_sh.Base.{
  ℕ, [], ◌∷◌, none, Bool, List, Map, if◌then◌else◌, some, ◌++◌, false, ◌==◌, ltb, length, true,
}
use cloud_devenv_sh.Backend.Jobs.{
  complete, update_job_status, Job, Jobs, cancel, find_expired_jobs, Result, claim_job_for_runner,
  to_vm_config, Failure, platform_eq, find_queued_job_for_platform,
}
use Prim.Native.String.{String, ◌++◌ as str_append}
use cloud_devenv_sh.Base.Maps.{insert, remove, get, keys, update}
use cloud_devenv_sh.Protocol.{
  ClientMessage, ServerMessage, JobStatus, Platform, CompletionStatus, status_eq, completion_eq,
}

pub record Server : Type 0 where
  pub jobs : Jobs
  -- the table `runners`: the platform of each
  pub runners : Map Platform
  -- `RunnerState`: the channel of each connected runner, with what its loop has not taken yet
  pub channels : Map (List ServerMessage)
  -- what was sent on sockets, oldest first, with the runner
  pub sent : List (ℕ × ServerMessage)
  pub logger_url : String

unfoldable pub register : ℕ → Server → Server
register runner_id s = record s { channels = insert runner_id [] s.channels }

unfoldable pub unregister : ℕ → Server → Server
unregister runner_id s = record s { channels = remove runner_id s.channels }

-- `try_send` on a channel of 32 places.
abbrev pub push : ServerMessage → List ServerMessage → List ServerMessage
push msg pending = pending ++ msg ∷ []

unfoldable pub try_send_to : ℕ → ServerMessage → Server → Server × Bool
try_send_to runner_id msg s = elim (get runner_id s.channels) [
  | none ↦ (s, false)
  | some pending ↦
      if ltb (length pending) 32
      then (record s { channels = update runner_id (push msg) s.channels }, true)
      else (s, false)
]

unfoldable pub create_job_notification : Job → ServerMessage
create_job_notification job = ServerMessage.new_job_available job.id (to_vm_config job)

-- The ids among `runner_ids` of a platform.
unfoldable pub find_matching_platforms : List ℕ → Platform → Map Platform → List ℕ
find_matching_platforms [] platform runners = []
find_matching_platforms (id ∷ ids) platform runners =
    let rest = find_matching_platforms ids platform runners in
    elim (get id runners) [
      | none ↦ rest
      | some p ↦ if platform_eq p platform then id ∷ rest else rest
    ]

unfoldable pub send_all : List ℕ → ServerMessage → Server → Server
unfolding try_send_to
send_all [] msg s = s
send_all (id ∷ ids) msg s = send_all ids msg (try_send_to id msg s).0

-- The ids are read before the lock is let go; the rest is the spawned task.
unfoldable pub broadcast_job_available : Job → Server → Server
unfolding send_all
broadcast_job_available job s =
    send_all (find_matching_platforms (keys s.channels) job.platform s.runners)
      (create_job_notification job) s

abbrev pub set_started : ℕ → Job → Job
set_started now job = record job { started_at = some now }

abbrev pub set_finished : ℕ → Job → Job
set_finished now job = record job { finished_at = some now }

-- `update_status` of github/model.rs: what it does to the table of jobs once every call before its
-- last statement succeeded, which `answered` says.
unfoldable pub github_update_status : Bool → ℕ → JobStatus → ℕ → Jobs → Jobs
github_update_status answered now JobStatus.queued id jobs = jobs
github_update_status answered now JobStatus.running id jobs =
    if answered then update id (set_started now) jobs else jobs
github_update_status answered now (JobStatus.complete c) id jobs =
    if answered then update id (set_finished now) jobs else jobs

abbrev pub send_socket : ℕ → Bool → ServerMessage → Server → Server
send_socket runner_id socket_ok msg s =
    if socket_ok then record s { sent = s.sent ++ (runner_id, msg) ∷ [] } else s

unfoldable pub check_and_send_job : (ℕ → Bool) → Bool → ℕ → Server → Server × Bool
check_and_send_job locked socket_ok runner_id s = elim (get runner_id s.runners) [
  | none ↦ (s, false)
  | some platform ↦ elim (find_queued_job_for_platform locked platform s.jobs) [
    | none ↦ (s, false)
    | some job ↦ (send_socket runner_id socket_ok (create_job_notification job) s, socket_ok)
  ]
]

-- What one message of a runner meets: the time, the locked rows, GitHub and the socket.
pub record World : Type 0 where
  pub now : ℕ
  pub locked : ℕ → Bool
  pub github_answers : Bool
  pub socket_ok : Bool
  -- the text of a `Uuid`
  pub uuid_text : ℕ → String

unfoldable pub handle_client_message : World → ℕ → ClientMessage → Server → Server
unfolding check_and_send_job github_update_status
handle_client_message w runner_id (ClientMessage.claim_job id vm) s =
    let (claimed, rows) = claim_job_for_runner id runner_id s.jobs in
    if rows == 1
    then send_socket runner_id w.socket_ok
        (ServerMessage.job_claimed id vm
          (str_append (str_append s.logger_url "/") (w.uuid_text id)))
        (record s {
          jobs = github_update_status w.github_answers w.now JobStatus.running id claimed;
        })
    else record s { jobs = claimed }
handle_client_message w runner_id (ClientMessage.update_job_status id status) s =
    (check_and_send_job w.locked w.socket_ok runner_id (record s {
      jobs =
          github_update_status w.github_answers w.now status id
            (update_job_status id status s.jobs);
    })).0
handle_client_message w runner_id ClientMessage.request_job s =
    (check_and_send_job w.locked w.socket_ok runner_id s).0
handle_client_message w runner_id (ClientMessage.report_metrics metrics) s = s

-- One job of a round of `job_timeout_checker`.
unfoldable pub time_out : World → Job → Server → Server
unfolding try_send_to
time_out w job s = elim job.runner_id [
  | none ↦ s
  | some runner_id ↦
      let (t, notified) = try_send_to runner_id (ServerMessage.job_timed_out job.id) s in
      if notified then t else record t {
        jobs =
            github_update_status w.github_answers w.now
              (JobStatus.complete CompletionStatus.timed_out) job.id
              (complete w.now CompletionStatus.timed_out job t.jobs).0;
      }
]

unfoldable pub time_out_all : World → List Job → Server → Server
time_out_all w [] s = s
time_out_all w (job ∷ jobs) s = time_out_all w jobs (time_out w job s)

unfoldable pub check_timeouts : World → ℕ → Server → Server
unfolding time_out_all
check_timeouts w timeout_seconds s =
    time_out_all w (find_expired_jobs w.now timeout_seconds s.jobs) s

pub data StatusCode : Type 0 where
  code_ok bad_request code_not_found internal_server_error : StatusCode

-- With the arm for a cancelled job that is `Skipped`.
unfoldable pub notify_cancelled : World → ℕ → Job → Server → Server
unfolding try_send_to
notify_cancelled w id job s =
    let status =
      if status_eq job.status (JobStatus.complete CompletionStatus.skipped)
      then CompletionStatus.skipped
      else CompletionStatus.cancelled in
    let t =
      if completion_eq status CompletionStatus.cancelled
      then elim job.runner_id [
        | none ↦ s
        | some runner_id ↦ (try_send_to runner_id (ServerMessage.job_cancelled id) s).0
      ]
      else s in
    record t {
      jobs = github_update_status w.github_answers w.now (JobStatus.complete status) id t.jobs;
    }

unfoldable pub cancel_job : World → ℕ → Server → Server × StatusCode
unfolding notify_cancelled
cancel_job w id s = elim (cancel id w.now s.jobs) [
  | Result.err Failure.not_found ↦ (s, StatusCode.code_not_found)
  | Result.err Failure.rollback ↦ (s, StatusCode.internal_server_error)
  | Result.ok (jobs, true, some job) ↦
      (notify_cancelled w id job (record s { jobs = jobs }), StatusCode.code_ok)
  | Result.ok (jobs, true, none) ↦ (record s { jobs = jobs }, StatusCode.internal_server_error)
  | Result.ok (jobs, false, job) ↦ (record s { jobs = jobs }, StatusCode.bad_request)
]
