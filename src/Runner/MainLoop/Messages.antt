-- ===== src/Runner/MainLoop/Messages.antt =====
-- runner/src/bin/runner.rs, `handle_server_message`: what the messages of the server lead to.
use mathlib.Core.List.{append_assoc}
use cloud_devenv_sh.Runner.Jobs.{
  update_job_status, complete_job, set_job_running, register_job, send_event, get_job,
  transition_allowed, new_info, set_status, JobInfo, JobManager,
}
use cloud_devenv_sh.Base.{
  ◌++◌, [], ◌∷◌, ℕ, Bool, ◌≡◌, ◌⊎◌, false, true, Bool-cases, inl, inr, arith, refl, some, List,
  length, ==_refl, ◌<◌,
}
use cloud_devenv_sh.Runner.MainLoop.{
  Handled, handle_server_message, Runner, handle_job_cancelled, handle_job_claimed,
  handle_new_job_available, handle_job_timed_out, send_message, claimed_config, String,
}
use cloud_devenv_sh.Runner.Vms.{launch_vm, is_vm_running, shutdown_vm, VmCommand}
use cloud_devenv_sh.Protocol.{
  ServerMessage, Vm, ClientMessage, status_eq, JobStatus, CompletionStatus, JobConfig,
}
use cloud_devenv_sh.Runner.Resources.{can_allocate}
use cloud_devenv_sh.Base.Maps.{contains_key, get-insert, get, get-update, insert, update}
use cloud_devenv_sh.Runner.Jobs.Lifecycle.{status_of}

-- The runner that a handler leaves.
abbrev pub left : Handled → Runner
left (Handled.done r) = r
left (Handled.failed r) = r
left (Handled.waiting r) = r

-- A claim of a job, the one message that a handler sends, follows an offer of that job, while the
-- runner is not shutting down and the machine fits the resources; no other message of the server makes
-- the handler send anything.
pub claim_only_if_fits :
    (message : ServerMessage) (alive : Bool) (r : Runner)
    → ((left (handle_server_message message alive r)).client_sent ≡ r.client_sent)
      ⊎ ((id : ℕ) × (vm : Vm) × (message ≡ ServerMessage.new_job_available id vm)
          × (r.shutting_down ≡ false)
          × (can_allocate r.resources.limits vm.cpu_count vm.memory_size_mb r.resources.allocation
              ≡ true)
          × ((left (handle_server_message message alive r)).client_sent
              ≡ r.client_sent ++ ClientMessage.claim_job id vm ∷ []))
unfolding handle_server_message handle_new_job_available handle_job_claimed handle_job_timed_out
    handle_job_cancelled send_message
claim_only_if_fits (ServerMessage.new_job_available id vm) alive r =
    elim (Bool-cases r.shutting_down) [
      | inl e ↦ rw e (inl refl)
      | inr e ↦
          elim (Bool-cases (
            can_allocate r.resources.limits vm.cpu_count vm.memory_size_mb
              r.resources.allocation)) [
                | inr f ↦ rw (e, f) (inl refl)
                | inl f ↦ elim (Bool-cases r.connected) [
                  | inl g ↦ inr (id, vm, refl, e, f, rw (e, f, g) refl)
                  | inr g ↦ rw (e, f, g) (inl refl)
                ]
              ]
    ]
claim_only_if_fits (ServerMessage.job_claimed id vm url) alive r = inl (ground arith)
claim_only_if_fits (ServerMessage.job_timed_out id) alive r = inl (ground arith)
claim_only_if_fits (ServerMessage.job_cancelled id) alive r = inl (ground arith)

registered-runs :
    (id : ℕ) (config : JobConfig) (m : JobManager)
    → m.receiver_alive ≡ true
    → set_job_running id (register_job id config m)
      ≡ some (record m {
        jobs = update id (set_status JobStatus.running) (insert id (new_info id config) m.jobs);
        sent =
            (m.sent ++ record { job_id = id; status = JobStatus.queued } ∷ [])
            ++ record { job_id = id; status = JobStatus.running } ∷ [];
      })
unfolding set_job_running update_job_status register_job send_event transition_allowed status_eq
    new_info
registered-runs id config m a =
    ground (arith, a, get-insert id id (new_info id config) m.jobs, ==_refl id)

-- A job that is claimed and new to a runner that is not shutting down is running when the handler is
-- done, with its machine launched, and both of its statuses were announced in order.
pub claimed-IsRunning :
    (id : ℕ) (vm : Vm) (url : String) (alive : Bool) (r : Runner)
    → r.shutting_down ≡ false
    → r.jobs.receiver_alive ≡ true
    → let s = left (handle_server_message (ServerMessage.job_claimed id vm url) alive r) in
      (status_of (get_job id s.jobs) ≡ some JobStatus.running)
      × (is_vm_running id s.vms ≡ true)
      × (s.jobs.sent
          ≡ r.jobs.sent
            ++ record { job_id = id; status = JobStatus.queued }
              ∷ record { job_id = id; status = JobStatus.running }
              ∷ [])
unfolding handle_server_message handle_job_claimed launch_vm set_job_running update_job_status
    register_job send_event get_job is_vm_running contains_key claimed_config new_info
    transition_allowed status_eq
claimed-IsRunning id vm url alive r h a =
    rw (h, registered-runs id (claimed_config id) r.jobs a)
      (
        ground (
          arith,
          get-insert id id (new_info id (claimed_config id)) r.jobs.jobs,
          get-update id id (set_status JobStatus.running)
              (insert id (new_info id (claimed_config id)) r.jobs.jobs),
          ==_refl id,
        ),
        ground (arith, get-insert id id [] r.vms.control_channels, ==_refl id),
        append_assoc r.jobs.sent _ _,
      )

-- A cancellation of a running job that has a machine with room in its channel makes the job cancelled,
-- announces it, and sends the machine the command to shut down.
pub cancelled-IsShutDown :
    (id : ℕ) (job : JobInfo) (pending : List VmCommand) (r : Runner)
    → get_job id r.jobs ≡ some job
    → job.status ≡ JobStatus.running
    → r.jobs.receiver_alive ≡ true
    → get id r.vms.control_channels ≡ some pending
    → length pending < 10
    → let s = left (handle_server_message (ServerMessage.job_cancelled id) true r) in
      (status_of (get_job id s.jobs) ≡ some (JobStatus.complete CompletionStatus.cancelled))
      × (get id s.vms.control_channels ≡ some (pending ++ VmCommand.shutdown ∷ []))
      × (s.jobs.sent
          ≡ r.jobs.sent
            ++ record { job_id = id; status = JobStatus.complete CompletionStatus.cancelled } ∷ [])
unfolding handle_server_message handle_job_cancelled complete_job update_job_status send_event
    get_job shutdown_vm transition_allowed status_eq set_status
cancelled-IsShutDown id job pending r e f a g h = ground (
  arith,
  e,
  f,
  a,
  g,
  h,
  get-update id id (set_status (JobStatus.complete CompletionStatus.cancelled)) r.jobs.jobs,
  get-update id id (λ cs. cs ++ VmCommand.shutdown ∷ []) r.vms.control_channels,
  ==_refl id,
)
