-- ===== src/Runner/Macos.antt =====
-- runner/src/vm_impl/macos.rs: one machine on macOS, its one guard, the connections that its guest opens,
-- and the loop that waits for it. What the Virtualization framework answers is a parameter.
mod Guarded
mod Waiting
mod Listening
mod Tests
use Prim.Native.String.{String}
use cloud_devenv_sh.Protocol.{JobConfig, Vm}
use cloud_devenv_sh.Base.{
  Bool, Option, ℕ, List, [], if◌then◌else◌, some, true, ◌*◌, none, not, ◌%◌, ◌∷◌, ◌≡◌, false, suc,
  ◌++◌, ◌^◌, ltb, ◌+◌, length,
}
use cloud_devenv_sh.Runner.Resources.Guards.{ResourceGuard, System, resource_guard_new}
use cloud_devenv_sh.Runner.Vsock.{Connection}
use cloud_devenv_sh.Runner.Vsock.Server.{Guest, serve}
use cloud_devenv_sh.Runner.Vms.{VmExitStatus}
use cloud_devenv_sh.Runner.Linux.{drop_last_resource, hold_resource}
use cloud_devenv_sh.Runner.Resources.{allocate_resources, Allocation}
use cloud_devenv_sh.Base.Loops.{poll}

pub record DisplayConfig : Type 0 where
  pub width : ℕ
  pub height : ℕ

-- The image's configuration; the numbers of `cpu_count` and `memory_size` are not used by `new`.
pub record VmImageConfig : Type 0 where
  pub version : ℕ
  pub arch : String
  pub os : String
  pub cpu_count : ℕ
  pub cpu_count_min : ℕ
  pub memory_size : ℕ
  pub memory_size_min : ℕ
  pub ecid : String
  pub hardware_model : String
  pub mac_address : String
  pub display : DisplayConfig

-- Of the text that was read, if it was; the parser is serde_json's.
unfoldable pub from_file : (String → Option VmImageConfig) → Option String → Option VmImageConfig
from_file parse none = none
from_file parse (some content) = parse content

-- What `new` sets by the machine, and the display and the disk that it sets for all.
pub record MachineConfig : Type 0 where
  pub cpu_count : ℕ
  pub memory_size : ℕ
  pub display_width : ℕ
  pub display_height : ℕ
  pub pixels_per_inch : ℕ
  pub disk_read_only : Bool

unfoldable pub machine_config : Vm → MachineConfig
machine_config vm = record {
  cpu_count = vm.cpu_count;
  memory_size = vm.memory_size_mb * 1024 * 1024 % 2 ^ 64;
  display_width = 1920;
  display_height = 1080;
  pixels_per_inch = 80;
  disk_read_only = false;
}

-- The answers to the calls of `new`.
pub record Framework : Type 0 where
  pub tempdir : Bool
  pub resources_dir_is_set : Bool
  pub config_file : Option String
  pub parse : String → Option VmImageConfig
  -- of the two texts in base64
  pub hardware_model : String → Bool
  pub machine_identifier : String → Bool
  pub disk : Bool
  pub is_valid : MachineConfig → Bool
  pub mac_address : String

pub record MacosVm : Type 0 where
  pub id : ℕ
  pub config : Vm
  pub resource_guard : ResourceGuard
  pub mac_address : String
  pub job_config : Option JobConfig
  -- with the shared state of the result
  pub connection : Connection

pub data Made : Type 0 where
  made : MacosVm → Made
  -- an error, or a panic
  failed panicked : Made

-- With the guard held.
unfoldable pub new_held : Framework → ℕ → Vm → ResourceGuard → Made
unfolding from_file machine_config
new_held f id vm g =
    if not f.resources_dir_is_set then Made.panicked else elim (from_file f.parse f.config_file) [
      | none ↦ Made.failed
      | some image_config ↦
          if not (f.hardware_model image_config.hardware_model)
          then Made.panicked
          else if not (f.machine_identifier image_config.ecid)
          then Made.panicked
          else if not f.disk
          then Made.panicked
          else if not (f.is_valid (machine_config vm))
          then Made.panicked
          else Made.made (record {
            id = id;
            config = vm;
            resource_guard = g;
            mac_address = f.mac_address;
            job_config = none;
            connection = record { job_result = some none; notified = false; logs = [] };
          })
    ]

-- The guard goes out of scope where there is no machine to hold it, a panic included.
unfoldable pub keep_or_drop : Made → ResourceGuard → System → System → System
keep_or_drop (Made.made vm) g before s = s
keep_or_drop Made.failed g before s = drop_last_resource g before.resource_guards s
keep_or_drop Made.panicked g before s = drop_last_resource g before.resource_guards s

-- `job_id` is the id that `now_v7` draws for the resources; `id` that of the machine.
unfoldable pub new_vm : Framework → ℕ → ℕ → Vm → System → System × Made
unfolding new_held keep_or_drop
new_vm f id job_id vm s =
    if not f.tempdir
    then (s, Made.failed)
    else elim (allocate_resources s.manager.limits job_id vm s.manager.allocation) [
      | Allocation.err reason ↦ (s, Made.failed)
      | Allocation.ok a jid held ↦
          let g = resource_guard_new jid held in
          let vm' = new_held f id vm g in (keep_or_drop vm' g s (hold_resource g a s), vm')
    ]

-- `VZVirtualMachineState`, as far as `wait` tells the states apart.
pub data MachineState : Type 0 where
  running stopped error stopping other : MachineState

-- One turn of the loop; `none` sleeps and goes on.
unfoldable pub turn : MachineState → Option VmExitStatus
turn MachineState.running = none
turn MachineState.stopped = some VmExitStatus.success
turn MachineState.error = some VmExitStatus.failure
turn MachineState.stopping = none
turn MachineState.other = none

-- The loop from its turn `i` on, for at most `fuel` turns; `none` when it still waits then.
unfoldable pub wait : ℕ → (ℕ → MachineState) → ℕ → Option VmExitStatus
unfolding turn
wait fuel states i = poll fuel (λ (j : ℕ). turn (states j)) i

-- The listener of one job: the connections that wait in its channel, oldest first, those that are being
-- served, and the loop that takes them.
pub record Listener : Type 0 where
  pub has_notifier : Bool
  pub channel : List Guest
  pub listening : Bool
  pub guests : List Guest
  pub vm : MacosVm

-- `set_job_config`: the job is stored, and the listener is set.
unfoldable pub set_job_config : JobConfig → MacosVm → Listener
set_job_config config vm = record {
  has_notifier = true;
  channel = [];
  listening = true;
  guests = [];
  vm = record vm { job_config = some config };
}

-- `duplicated`: the descriptor could be. With whether the connection is accepted.
unfoldable pub should_accept_connection : Bool → Guest → Listener → Listener × Bool
should_accept_connection duplicated g l =
    if not l.has_notifier
    then (l, false)
    else if not duplicated
    then (l, false)
    else if ltb (length l.channel) 10
    then (record l { channel = l.channel ++ g ∷ [] }, true)
    else (l, false)

-- One turn of the task of `set_job_config`, at the connection that it receives: a stream that cannot be
-- converted ends the task.
unfoldable pub receive : Bool → Listener → Listener
receive converts l = elim l.channel [
  | [] ↦ l
  | g ∷ rest ↦
      if converts
      then record l { channel = rest; guests = g ∷ l.guests }
      else record l { channel = rest; listening = false }
]

-- What the framework, the task and the connections do, in any order; `offer` is a guest that connects.
pub data ListenerStep (job_id : ℕ) (s t : Listener) : Type 0 where
  offer :
      (duplicated : Bool) (g : Guest)
      → t ≡ (should_accept_connection duplicated g s).0
      → ListenerStep job_id s t
  received :
      (converts : Bool) → s.listening ≡ true → t ≡ receive converts s → ListenerStep job_id s t
  serves :
      (xs ys : List Guest) (g : Guest)
      → s.guests ≡ xs ++ g ∷ ys
      → t ≡ record s {
        guests = xs ++ ys;
        vm = record s.vm { connection = serve job_id g s.vm.connection };
      }
      → ListenerStep job_id s t
  shuts_down :
      s.listening ≡ true
      → s.vm.connection.notified ≡ true
      → t ≡ record s {
        listening = false;
        vm = record s.vm { connection = record s.vm.connection { notified = false } };
      }
      → ListenerStep job_id s t

pub data ListenerReach (job_id : ℕ) (s : Listener) : Listener → Type 0 where
  here : ListenerReach job_id s s
  next :
      {t u : Listener}
      → ListenerReach job_id s t
      → ListenerStep job_id t u
      → ListenerReach job_id s u
