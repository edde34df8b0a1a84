-- ===== src/Runner/Linux.antt =====
-- runner/src/vm_impl/linux.rs: one machine on Linux, its guards, its two processes, and the loop that
-- waits for it. What the operating system and the hypervisor answer is a parameter; the two loops that
-- wait for a socket are passed when the sockets are there.
pub mod Guarded
mod Failures
mod Waiting
mod Ends
mod Tests
use cloud_devenv_sh.Base.{
  zero, suc, ℕ, [], ◌∷◌, none, some, true, false, Bool, Option, List, if◌then◌else◌, not, ◌+◌, ◌==◌,
  ◌++◌, ◌||◌, ◌%◌, ◌^◌, ◌*◌, filterb,
}
use cloud_devenv_sh.Runner.Vms.{VmExitStatus}
use cloud_devenv_sh.Runner.Resources.Guards.{
  CidGuard, IpGuard, ResourceGuard, System, cid_guard_new, ip_guard_new, cid_guard_drop,
  ip_guard_drop, resource_guard_drop, resource_guard_new,
}
use cloud_devenv_sh.Protocol.{Vm}
use cloud_devenv_sh.Runner.Resources.{
  ResourceManager, ResourceState, allocate_resources, Allocation,
}
use cloud_devenv_sh.Base.Texts.{Text}
use cloud_devenv_sh.Runner.Network.{cmdline}
use cloud_devenv_sh.Base.Loops.{poll}

-- What `new` sets of the hypervisor's configuration by the machine; the numbers as the bits of an i32 and
-- an i64.
pub record HypervisorConfig : Type 0 where
  pub boot_vcpus : ℕ
  pub max_vcpus : ℕ
  pub memory_size : ℕ
  pub kernel_cmdline : Text
  pub net_queues : ℕ
  pub vsock_cid : ℕ

unfoldable pub vm_config_ch : Vm → ℕ → ℕ → HypervisorConfig
unfolding cmdline
vm_config_ch vm guest_ip cid = record {
  boot_vcpus = vm.cpu_count % 2 ^ 32;
  max_vcpus = vm.cpu_count % 2 ^ 32;
  memory_size = vm.memory_size_mb * (1024 * 1024) % 2 ^ 64;
  kernel_cmdline = cmdline guest_ip;
  net_queues = vm.cpu_count % 2 ^ 32;
  vsock_cid = cid;
}

-- The answers to the fallible calls of `new`, in their order.
pub record Host : Type 0 where
  pub tempdir : Bool
  pub vm_storage_base : Bool
  pub vm_rootfs_dir : Bool
  pub copy_rootfs : Bool
  pub nix_store_dir : Bool
  pub cp_runs : Bool
  pub cp_succeeds : Bool
  pub virtiofsd_spawns : Bool
  pub hypervisor_spawns : Bool
  -- of the hypervisor, on the machine's configuration
  pub create_vm : HypervisorConfig → Bool

pub data Process : Type 0 where
  virtiofsd cloud_hypervisor : Process

-- The guards of a machine; the records keep them alive.
pub record LinuxVm : Type 0 where
  pub id : ℕ
  pub resource_guard : ResourceGuard
  pub ip_guard : IpGuard
  pub cid_guard : CidGuard

-- The guards and their tasks; the processes that run, and the root file systems that stand, by machine.
pub record Machines : Type 0 where
  pub system : System
  pub processes : List (ℕ × Process)
  pub rootfs_dirs : List ℕ

abbrev pub hold_resource : ResourceGuard → ResourceState → System → System
hold_resource g a s = record s {
  manager = record s.manager { allocation = a };
  resource_guards = g ∷ s.resource_guards;
}

-- The guard that was made last goes out of scope.
abbrev pub drop_last_resource : ResourceGuard → List ResourceGuard → System → System
drop_last_resource g rest s = record s {
  resource_guards = rest;
  tasks = resource_guard_drop g ++ s.tasks;
}

abbrev pub drop_last_ip : IpGuard → List IpGuard → System → System
drop_last_ip g rest s = record s { ip_guards = rest; tasks = ip_guard_drop g ++ s.tasks }

abbrev pub drop_last_cid : CidGuard → List CidGuard → System → System
drop_last_cid g rest s = record s { cid_guards = rest; tasks = cid_guard_drop g ++ s.tasks }

-- The calls between the allocation of the resources and that of the address; `false` at the first that
-- fails, with the processes that run and the directories that stand by then.
unfoldable pub prepare : Host → ℕ → Bool × List (ℕ × Process) × List ℕ
prepare h id =
    if not h.vm_storage_base || not h.vm_rootfs_dir
    then (false, [], [])
    else if not h.copy_rootfs || not h.nix_store_dir || not h.cp_runs || not h.cp_succeeds
    then (false, [], id ∷ [])
    else if not h.virtiofsd_spawns
    then (false, [], id ∷ [])
    else if not h.hypervisor_spawns
    then (false, (id, Process.virtiofsd) ∷ [], id ∷ [])
    else (true, (id, Process.cloud_hypervisor) ∷ (id, Process.virtiofsd) ∷ [], id ∷ [])

-- From the allocation of the context id on, with the guards `g` and `ip` held; `before` is the system
-- before the machine.
unfoldable pub new_with_ip :
    Host → Vm → ℕ → ResourceGuard → IpGuard → ℕ → System → System → System × Option LinuxVm
unfolding vm_config_ch
new_with_ip h vm id g ip guest_ip before s =
    let (guard, m) = cid_guard_new s.manager in
    elim guard [
      | none ↦ (
        drop_last_resource g before.resource_guards
            (drop_last_ip ip before.ip_guards (record s { manager = m })),
        none,
      )
      | some held ↦
          let t : System = record s { manager = m; cid_guards = held ∷ s.cid_guards } in
          let made : LinuxVm = record {
            id = id;
            resource_guard = g;
            ip_guard = ip;
            cid_guard = held;
          } in
          let gone : System =
            drop_last_resource g before.resource_guards
              (drop_last_ip ip before.ip_guards (drop_last_cid held before.cid_guards t)) in
          elim held.cid [
            | none ↦ (gone, none)
            | some cid ↦
                if h.create_vm (vm_config_ch vm guest_ip cid) then (t, some made) else (gone, none)
          ]
    ]

unfoldable pub new_with_resources :
    Host → Vm → ℕ → ResourceGuard → System → System → System × Option LinuxVm
unfolding new_with_ip
new_with_resources h vm id g before s =
    let (guard, m) = ip_guard_new s.manager in
    elim guard [
      | none ↦ (drop_last_resource g before.resource_guards (record s { manager = m }), none)
      | some ip ↦
          let t : System = record s { manager = m; ip_guards = ip ∷ s.ip_guards } in
          elim ip.ip [
            | none ↦ (
              drop_last_resource g before.resource_guards (drop_last_ip ip before.ip_guards t),
              none,
            )
            | some guest_ip ↦ new_with_ip h vm id g ip guest_ip before t
          ]
    ]

-- From the allocation of the resources on.
unfoldable pub new_held : Host → Vm → ℕ → ResourceGuard → System → System → System × Option LinuxVm
unfolding new_with_resources prepare
new_held h vm id g before s =
    if (prepare h id).0
    then new_with_resources h vm id g before s
    else (drop_last_resource g before.resource_guards s, none)

-- `job_id` is the id that `now_v7` draws for the resources; `id` that of the machine.
unfoldable pub new_vm : Host → ℕ → ℕ → Vm → Machines → Machines × Option LinuxVm
unfolding new_held prepare
new_vm h id job_id vm ms =
    if not h.tempdir
    then (ms, none)
    else elim (allocate_resources ms.system.manager.limits job_id vm ms.system.manager.allocation) [
      | Allocation.err reason ↦ (ms, none)
      | Allocation.ok a jid held ↦
          let g = resource_guard_new jid held in
          let (s, made) = new_held h vm id g ms.system (hold_resource g a ms.system) in
          (
            record {
              system = s;
              processes = (prepare h id).1 ++ ms.processes;
              rootfs_dirs = (prepare h id).2 ++ ms.rootfs_dirs;
            },
            made,
          )
    ]

-- What one turn of the loop of `wait` reads: the result that the guest reported, and `try_wait`.
pub data TryWait : Type 0 where
  -- with the exit code; `none` when a signal ended the process
  ended : Option ℕ → TryWait
  running : TryWait
  wait_failed : TryWait

pub record Poll : Type 0 where
  pub job_result : Option Bool
  pub process : TryWait

abbrev pub exit_code : Option ℕ → ℕ
exit_code none = 1
exit_code (some c) = c

pub data Waited : Type 0 where
  -- with whether the machine was shut down first
  status : VmExitStatus → Bool → Waited
  failed : Waited

-- One turn: `none` goes on. The result that was read is none where the process is looked at.
unfoldable pub turn : Poll → Option Waited
turn p = elim p.job_result [
  | some true ↦ some (Waited.status VmExitStatus.success true)
  | some false ↦ some (Waited.status VmExitStatus.failure true)
  | none ↦ elim p.process [
    | TryWait.ended code ↦
        if exit_code code == 0
        then some (Waited.status VmExitStatus.success false)
        else some (Waited.status VmExitStatus.failure false)
    | TryWait.running ↦ none
    | TryWait.wait_failed ↦ some Waited.failed
  ]
]

-- The loop from its turn `i` on, for at most `fuel` turns; `none` when it still waits then.
unfoldable pub wait : ℕ → (ℕ → Poll) → ℕ → Option Waited
unfolding turn
wait fuel polls i = poll fuel (λ (j : ℕ). turn (polls j)) i

-- The answers to the kills and to the removal of the root file system; an error is only logged.
pub record Cleanup : Type 0 where
  pub kills_hypervisor : Bool
  pub kills_virtiofsd : Bool
  pub removes_rootfs : Bool

abbrev pub is_process : ℕ → Process → ℕ × Process → Bool
is_process id Process.virtiofsd (j, Process.virtiofsd) = j == id
is_process id Process.cloud_hypervisor (j, Process.cloud_hypervisor) = j == id
is_process id _ (j, _) = false

unfoldable pub end_process : ℕ → Process → List (ℕ × Process) → List (ℕ × Process)
end_process id p ps = filterb (λ (q : ℕ × Process). not (is_process id p q)) ps

-- `kill` of both processes; whatever the hypervisor's API answers, `shutdown` goes on to it.
unfoldable pub kill_processes : Cleanup → ℕ → Machines → Machines
unfolding end_process
kill_processes c id ms =
    let ps =
      if c.kills_hypervisor
      then end_process id Process.cloud_hypervisor ms.processes
      else ms.processes in
    record ms { processes = if c.kills_virtiofsd then end_process id Process.virtiofsd ps else ps }

unfoldable pub shutdown_vm : Cleanup → ℕ → Machines → Machines
unfolding kill_processes
shutdown_vm c id ms = kill_processes c id ms

-- `drop` of a machine; its guards are dropped after it, each by its own `drop`.
unfoldable pub drop_vm : Cleanup → ℕ → Machines → Machines
unfolding kill_processes
drop_vm c id ms =
    let t : Machines = kill_processes c id ms in
    record t {
      rootfs_dirs =
          if c.removes_rootfs
          then filterb (λ (d : ℕ). not (d == id)) t.rootfs_dirs
          else t.rootfs_dirs;
    }
