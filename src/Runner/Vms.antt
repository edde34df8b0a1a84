-- ===== src/Runner/Vms.antt =====
-- runner/src/vm_manager.rs and runner/src/vm.rs: the task that runs one machine, and the control
-- channels that reach it. A machine is a `dyn Vm`, made by `create_vm`; its answers are parameters.
mod Completion
mod Tests
use cloud_devenv_sh.Base.{
  ℕ, Bool, List, Map, Option, [], ◌++◌, if◌then◌else◌, none, some, ◌∷◌, false, not, ltb, length,
  true,
}
use cloud_devenv_sh.Base.Maps.{get, remove, contains_key, insert, update}
use cloud_devenv_sh.Protocol.{CompletionStatus}

pub data VmExitStatus : Type 0 where
  success failure : VmExitStatus

-- `From<VmExitStatus> for CompletionStatus`.
unfoldable pub exit_to_completion : VmExitStatus → CompletionStatus
exit_to_completion VmExitStatus.success = CompletionStatus.success
exit_to_completion VmExitStatus.failure = CompletionStatus.failed

pub data VmCommand : Type 0 where
  shutdown : VmCommand

pub record VmCompletionEvent : Type 0 where
  pub job_id : ℕ
  pub status : VmExitStatus

-- The pending commands of a control channel, oldest first.
pub record VmManager : Type 0 where
  pub control_channels : Map (List VmCommand)
  -- what was sent on `completion_tx`, oldest first
  pub completions : List VmCompletionEvent

unfoldable pub new_manager : VmManager
new_manager = record { control_channels = []; completions = [] }

-- The part of `launch_vm` before the spawned task runs: it has no error of its own.
unfoldable pub launch_vm : ℕ → VmManager → Option VmManager
launch_vm job_id m = some (record m { control_channels = insert job_id [] m.control_channels })

pub data Shutdown : Type 0 where
  answered : Bool → VmManager → Shutdown
  -- the channel is full: the sender waits until the task takes a command
  waits : Shutdown
  -- the error "Failed to send shutdown command"
  send_failed : Shutdown

-- `receiver_alive`: the task still holds its end of the channel when the command is sent. It may have
-- ended since the sender was cloned out of the map.
unfoldable pub shutdown_vm : ℕ → Bool → VmManager → Shutdown
shutdown_vm job_id receiver_alive m = elim (get job_id m.control_channels) [
  | none ↦ Shutdown.answered false m
  | some pending ↦
      if not receiver_alive
      then Shutdown.send_failed
      else if ltb (length pending) 10
      then Shutdown.answered true (record m {
        control_channels = update job_id (λ cs. cs ++ VmCommand.shutdown ∷ []) m.control_channels;
      })
      else Shutdown.waits
]

unfoldable pub is_vm_running : ℕ → VmManager → Bool
is_vm_running job_id m = contains_key job_id m.control_channels

-- The calls that the task makes on the machine.
pub data VmCall : Type 0 where
  create set_job_config start wait shut_down : VmCall

-- Which arm of `tokio::select!` is taken: the machine's exit (`none`: `wait` fails) or a command.
pub data Selected : Type 0 where
  exited : Option VmExitStatus → Selected
  commanded : VmCommand → Selected

-- What the machine answers. The answers after a failure are never asked for.
pub record Machine : Type 0 where
  pub create_ok : Bool
  pub set_job_config_ok : Bool
  pub start_ok : Bool
  pub selected : Selected
  pub shutdown_ok : Bool
  pub wait_again : Option VmExitStatus

-- The three calls of the first block, each left at its first error.
unfoldable pub boot : Machine → Bool × List VmCall
boot v =
    if not v.create_ok
    then (false, VmCall.create ∷ [])
    else if not v.set_job_config_ok
    then (false, VmCall.create ∷ VmCall.set_job_config ∷ [])
    else (v.start_ok, VmCall.create ∷ VmCall.set_job_config ∷ VmCall.start ∷ [])

abbrev pub or_failure : Option VmExitStatus → VmExitStatus
or_failure none = VmExitStatus.failure
or_failure (some status) = status

-- The status that the task ends with. An error of `shutdown` is logged, and changes nothing.
unfoldable pub await_exit : Machine → VmExitStatus × List VmCall
await_exit v = elim v.selected [
  | Selected.exited status ↦ (or_failure status, VmCall.wait ∷ [])
  | Selected.commanded VmCommand.shutdown ↦
      (or_failure v.wait_again, VmCall.wait ∷ VmCall.shut_down ∷ VmCall.wait ∷ [])
]

unfoldable pub send_completion : ℕ → VmExitStatus → VmManager → VmManager
send_completion job_id status m = record m {
  completions = m.completions ++ record { job_id = job_id; status = status } ∷ [];
}

unfoldable pub close_channel : ℕ → VmManager → VmManager
close_channel job_id m = record m { control_channels = remove job_id m.control_channels }

-- The whole task, with the calls it makes.
unfoldable pub vm_task_impl : ℕ → Machine → VmManager → VmManager × List VmCall
unfolding boot await_exit send_completion close_channel
vm_task_impl job_id v m =
    let (started, calls) = boot v in
    let (status, rest) = await_exit v in
    if started
    then (close_channel job_id (send_completion job_id status m), calls ++ rest)
    else (close_channel job_id (send_completion job_id VmExitStatus.failure m), calls)
