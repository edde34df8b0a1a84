-- ===== src/Runner/MainLoop.antt =====
-- runner/src/bin/runner.rs: the main loop of the runner, with the handler of the server's messages.
pub mod Rounds
pub mod Messages
mod AtMostOnce
mod Exit
mod Tests
mod Reports
use cloud_devenv_sh.Base.{
  ℕ, Bool, Option, if◌then◌else◌, none, some, ◌++◌, ◌∷◌, [], ◌+◌, ◌/◌, List, false, ◌*◌,
}
use Prim.Native.String.{String}
use cloud_devenv_sh.Protocol.{
  ClientMessage, JobConfig, Platform, RunnerMetrics, ServerMessage, Vm, JobStatus, CompletionStatus,
}
use cloud_devenv_sh.Runner.Jobs.{
  JobStatusEvent, complete_job, JobManager, get_job_counts, register_job, set_job_running,
}
use cloud_devenv_sh.Runner.Vms.{
  VmCompletionEvent, exit_to_completion, VmManager, shutdown_vm, Shutdown, launch_vm,
}
use cloud_devenv_sh.Runner.Resources.{
  ResourceManager, get_usage_stats, can_allocate, has_minimal_capacity, release_job,
}

pub record Runner : Type 0 where
  pub platform : Platform
  pub resources : ResourceManager
  pub jobs : JobManager
  pub vms : VmManager
  -- the websocket takes messages; while it does not, every send is an error
  pub connected : Bool
  pub client_sent : List ClientMessage
  -- the log streams that were set up, with their addresses
  pub log_streams : List (ℕ × String)
  -- how many status events, and how many completion events, were received
  pub events_read : ℕ
  pub completions_read : ℕ
  pub shutting_down : Bool

unfoldable pub send_message : ClientMessage → Runner → Option Runner
send_message message r =
    if r.connected then some (record r { client_sent = r.client_sent ++ message ∷ [] }) else none

-- An error that is logged, and changes nothing.
abbrev pub or_same {ℓ} : {A : Type ℓ} → Option A → A → A
or_same none r = r
or_same (some s) r = s

unfoldable pub check_capacity_and_request_job : Runner → Option Runner
check_capacity_and_request_job r =
    if has_minimal_capacity r.resources.limits r.resources.allocation
    then send_message ClientMessage.request_job r
    else some r

-- One round of the task that handles the completions of machines.
unfoldable pub handle_completion : VmCompletionEvent → Runner → Runner
handle_completion event r = record r {
  jobs = or_same (complete_job event.job_id (exit_to_completion event.status) r.jobs) r.jobs;
  completions_read = r.completions_read + 1;
}

unfoldable pub collect_metrics : Runner → RunnerMetrics
collect_metrics r =
    let (used_cpu_count, used_memory_mb) = get_usage_stats r.resources.allocation in
    let (active_jobs, queued_jobs, running_jobs) = get_job_counts r.jobs in
    record {
      platform = r.platform;
      cpu_count = r.resources.limits.max_cpus;
      memory_size_mb = r.resources.limits.max_memory_bytes / (1024 * 1024);
      used_cpu_count = used_cpu_count;
      used_memory_mb = used_memory_mb;
      active_jobs = active_jobs;
      queued_jobs = queued_jobs;
      running_jobs = running_jobs;
      max_instances = r.resources.limits.max_instances;
    }

pub data Handled : Type 0 where
  done : Runner → Handled
  -- the handler returns an error, which the loop unwraps
  failed : Runner → Handled
  -- the handler waits for room in a control channel
  waiting : Runner → Handled

unfoldable pub claimed_config : ℕ → JobConfig
claimed_config id = record {
  id = id;
  project_url = "https://github.com/cachix/devenv";
  git_ref = none;
  tasks = "build" ∷ "test" ∷ [];
  cachix_push = false;
  clone_depth = none;
}

unfoldable pub handle_new_job_available : ℕ → Vm → Runner → Handled
unfolding send_message
handle_new_job_available id vm r =
    if r.shutting_down
    then Handled.done r
    else if can_allocate r.resources.limits vm.cpu_count vm.memory_size_mb r.resources.allocation
    then elim (send_message (ClientMessage.claim_job id vm) r) [
      | none ↦ Handled.failed r
      | some s ↦ Handled.done s
    ]
    else Handled.done r

-- The job is registered, its log stream set up, its machine launched, and its status set. The text
-- that a failed launch sends to the log is left out. The steps in Rounds also take it apart where it
-- awaits, since the machine's task can end before its job is set running.
unfoldable pub handle_job_claimed : ℕ → Vm → String → Runner → Handled
handle_job_claimed id vm log_url r =
    if r.shutting_down
    then Handled.done r
    else let jobs = register_job id (claimed_config id) r.jobs in
      let streams = r.log_streams ++ (id, log_url) ∷ [] in
      elim (launch_vm id r.vms) [
        | none ↦ Handled.done (record r {
          jobs = or_same (complete_job id CompletionStatus.failed jobs) jobs;
          log_streams = streams;
        })
        | some vms ↦ Handled.done (record r {
          jobs = or_same (set_job_running id jobs) jobs;
          log_streams = streams;
          vms = vms;
        })
      ]

unfoldable pub handle_job_timed_out : ℕ → Bool → Runner → Handled
handle_job_timed_out id alive r =
    let s = record r {
      jobs = or_same (complete_job id CompletionStatus.timed_out r.jobs) r.jobs;
    } in
    elim (shutdown_vm id alive r.vms) [
      | Shutdown.answered b vms ↦ Handled.done (record s { vms = vms })
      | Shutdown.waits ↦ Handled.waiting s
      | Shutdown.send_failed ↦ Handled.done s
    ]

unfoldable pub handle_job_cancelled : ℕ → Bool → Runner → Handled
handle_job_cancelled id alive r =
    let s = record r {
      jobs = or_same (complete_job id CompletionStatus.cancelled r.jobs) r.jobs;
    } in
    elim (shutdown_vm id alive r.vms) [
      | Shutdown.answered b vms ↦ Handled.done (record s { vms = vms })
      | Shutdown.waits ↦ Handled.waiting s
      | Shutdown.send_failed ↦ Handled.done (record s {
        resources = record r.resources { allocation = (release_job id r.resources.allocation).0 };
      })
    ]

-- `alive`: see `shutdown_vm`.
unfoldable pub handle_server_message : ServerMessage → Bool → Runner → Handled
handle_server_message (ServerMessage.new_job_available id vm) alive r =
    handle_new_job_available id vm r
handle_server_message (ServerMessage.job_claimed id vm log_url) alive r =
    handle_job_claimed id vm log_url r
handle_server_message (ServerMessage.job_timed_out id) alive r = handle_job_timed_out id alive r
handle_server_message (ServerMessage.job_cancelled id) alive r = handle_job_cancelled id alive r

unfoldable pub handle_status_event : JobStatusEvent → Runner → Runner
handle_status_event event r = elim event.status [
  | JobStatus.complete status ↦
      let s =
        or_same
          (send_message (ClientMessage.update_job_status event.job_id (JobStatus.complete status))
            r)
          r in
      if s.shutting_down then s else or_same (check_capacity_and_request_job s) s
  | JobStatus.running ↦ r
  | JobStatus.queued ↦ r
]
