-- ===== src/Runner/MainLoop/Rounds.antt =====
-- runner/src/bin/runner.rs, `main`: the rounds of the main loop, and the steps of the tasks beside it.
use cloud_devenv_sh.Base.{
  ℕ, Bool, List, Option, if◌then◌else◌, ◌&&◌, ◌≡◌, none, not, some, true, [], ◌==◌, ◌∷◌, false, ◌+◌,
  ◌-◌, refl, ◌++◌,
}
use cloud_devenv_sh.Runner.Resources
use cloud_devenv_sh.Runner.Jobs
use cloud_devenv_sh.Runner.Resources.{ResourceManager, ResourceLimits}
use cloud_devenv_sh.Runner.MainLoop.{
  Handled, Runner, check_capacity_and_request_job, handle_status_event, handle_completion,
  handle_server_message, or_same, send_message, collect_metrics, String, handle_job_claimed,
  claimed_config,
}
use cloud_devenv_sh.Protocol.{Platform, ServerMessage, ClientMessage, Vm}
use cloud_devenv_sh.Runner.Jobs.{get_job, active_job_count, set_job_running, register_job}
use cloud_devenv_sh.Runner.Vms.{
  new_manager, VmCompletionEvent, Machine, is_vm_running, vm_task_impl, VmManager, launch_vm,
}

-- What `tokio::select!` may take.
pub data LoopEvent : Type 0 where
  shutdown_signal : LoopEvent
  -- the next status event of the job manager
  status_event : LoopEvent
  -- with what `shutdown_vm` asks for
  message_received : ServerMessage → Bool → LoopEvent
  websocket_error : LoopEvent
  -- the stream ended; whether a new connection could be made
  websocket_closed : Bool → LoopEvent
  metrics_tick : LoopEvent

pub data Loop : Type 0 where
  continues : Runner → Loop
  -- `break 'main`
  leaves : Runner → Loop
  -- `unwrap` of an error
  panics : Runner → Loop
  -- the handler waits, and the loop with it
  blocked : Runner → Loop

unfoldable pub nth {ℓ} : {A : Type ℓ} → List A → ℕ → Option A
nth [] i = none
nth (x ∷ xs) i = if i == 0 then some x else nth xs (i - 1)

unfoldable pub after_message : Handled → Loop
after_message (Handled.done r) = Loop.continues r
after_message (Handled.failed r) = Loop.panics r
after_message (Handled.waiting r) = Loop.blocked r

unfoldable pub all_done : Runner → Bool
all_done r = r.shutting_down && (active_job_count r.jobs == 0)

unfoldable pub handle_websocket_closed : Bool → Runner → Loop
unfolding all_done
handle_websocket_closed reconnected r =
    if all_done r
    then Loop.leaves r
    else if not reconnected
    then Loop.leaves r
    else let s = record r { connected = true } in
      if s.shutting_down then Loop.continues s else elim (check_capacity_and_request_job s) [
        | none ↦ Loop.panics s
        | some t ↦ Loop.continues t
      ]

-- The arms of `tokio::select!` with their guards: `none` when the arm is not taken.
unfoldable pub select_arm : LoopEvent → Runner → Option Loop
unfolding nth after_message handle_websocket_closed
select_arm LoopEvent.shutdown_signal r =
    if r.shutting_down then none else some (Loop.continues (record r { shutting_down = true }))
select_arm LoopEvent.status_event r = elim (nth r.jobs.sent r.events_read) [
  | none ↦ none
  | some event ↦
      some
        (Loop.continues (handle_status_event event (record r { events_read = r.events_read + 1 })))
]
select_arm (LoopEvent.message_received message alive) r =
    if r.shutting_down then none else some (after_message (handle_server_message message alive r))
select_arm LoopEvent.websocket_error r = if r.shutting_down then none else some (Loop.continues r)
select_arm (LoopEvent.websocket_closed reconnected) r =
    if r.shutting_down then none else some (handle_websocket_closed reconnected r)
select_arm LoopEvent.metrics_tick r =
    some (
      Loop.continues
        (or_same (send_message (ClientMessage.report_metrics (collect_metrics r)) r) r))

-- One round: the test at its top, then one arm.
unfoldable pub main_round : LoopEvent → Runner → Option Loop
unfolding all_done select_arm
main_round e r = if all_done r then some (Loop.leaves r) else select_arm e r

-- The runner that the loop goes on with.
abbrev pub resume : Runner → Option Loop → Runner
resume r (some (Loop.continues s)) = s
resume r _ = r

-- A claimed job is new to the runner: the server gives a job out once.
abbrev pub IsFresh : LoopEvent → Runner → Type 0
IsFresh (LoopEvent.message_received (ServerMessage.job_claimed id vm url) alive) r =
    get_job id r.jobs ≡ none
IsFresh e r = Unit

-- A claimed job that is registered, with its log stream and its machine launched.
unfoldable pub claim_launched : ℕ → String → VmManager → Runner → Runner
claim_launched id log_url vms r = record r {
  jobs = register_job id (claimed_config id) r.jobs;
  log_streams = r.log_streams ++ (id, log_url) ∷ [];
  vms = vms;
}

-- What the handler of the claim does then.
unfoldable pub claim_running : ℕ → Runner → Runner
claim_running id r = record r { jobs = or_same (set_job_running id r.jobs) r.jobs }

-- The two, one right after the other, are the handler.
claimed_in_two :
    (id : ℕ) (vm : Vm) (log_url : String) (vms : VmManager) (r : Runner)
    → r.shutting_down ≡ false
    → launch_vm id r.vms ≡ some vms
    → handle_job_claimed id vm log_url r
      ≡ Handled.done (claim_running id (claim_launched id log_url vms r))
unfolding handle_job_claimed claim_running claim_launched
claimed_in_two id vm log_url vms r h e = simp (handle_job_claimed, h, e) refl

-- The steps of the runner: rounds of the loop, the completion task, the end of a machine's task, and
-- what the tasks do to the resources and the network to the connection. The handler of a claim awaits
-- between its calls, so it is also taken apart: a machine may end before its job is set running. That the
-- loop takes no other round meanwhile is left open.
pub data Step (r s : Runner) : Type 0 where
  round : (e : LoopEvent) → IsFresh e r → main_round e r ≡ some (Loop.continues s) → Step r s
  completion :
      (event : VmCompletionEvent)
      → nth r.vms.completions r.completions_read ≡ some event
      → s ≡ handle_completion event r
      → Step r s
  vm_task :
      (id : ℕ) (v : Machine)
      → is_vm_running id r.vms ≡ true
      → s ≡ record r { vms = (vm_task_impl id v r.vms).0 }
      → Step r s
  claim_launches :
      (id : ℕ) (log_url : String) (vms : VmManager)
      → r.shutting_down ≡ false
      → get_job id r.jobs ≡ none
      → launch_vm id r.vms ≡ some vms
      → s ≡ claim_launched id log_url vms r
      → Step r s
  claim_runs : (id : ℕ) → s ≡ claim_running id r → Step r s
  resources : (m : ResourceManager) → s ≡ record r { resources = m } → Step r s
  connection : (b : Bool) → s ≡ record r { connected = b } → Step r s

unfoldable pub new_runner : Platform → ResourceLimits → Runner
new_runner platform limits = record {
  platform = platform;
  resources = Resources.new limits;
  jobs = Jobs.new;
  vms = new_manager;
  connected = true;
  client_sent = [];
  log_streams = [];
  events_read = 0;
  completions_read = 0;
  shutting_down = false;
}

pub data Reach (platform : Platform) (limits : ResourceLimits) : Runner → Type 0 where
  here : Reach platform limits (new_runner platform limits)
  next : {r s : Runner} → Reach platform limits r → Step r s → Reach platform limits s
