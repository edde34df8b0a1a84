-- ===== src/Runner/Linux/Tests.antt =====
-- Runs of runner/src/vm_impl/linux.rs: a machine that is made, one that fails, and one that is waited for.
use cloud_devenv_sh.Base.{
  ◌∷◌, none, some, ℕ, ◌≡◌, refl, arith, [], true, false, if◌then◌else◌, ◌<◌, ◌+◌, ◌==◌, inl,
}
use cloud_devenv_sh.Runner.Resources.Guards.{
  Reach, start, resource_guard_new, ip_guard_new, cid_guard_new,
}
use cloud_devenv_sh.Runner.Resources.{
  new, new_state, can_allocate, allocate_resources, allocate_ip, allocate_cid,
}
use cloud_devenv_sh.Runner.Linux.{
  wait, Host, Machines, Poll, Waited, new_vm, TryWait, prepare, HypervisorConfig, LinuxVm, drop_vm,
  new_held, new_with_resources, new_with_ip,
}
use cloud_devenv_sh.Runner.Linux.Failures.{Guarded, new_vm-Guarded}
use cloud_devenv_sh.Runner.Vms.{VmExitStatus}
use cloud_devenv_sh.Runner.Resources.Tests.{small, limits, small_fits, small_passes}
use cloud_devenv_sh.Runner.Linux.Waiting.{wait_returns, IsQuiet}
use cloud_devenv_sh.Runner.Linux.Guarded.{new_vm-Reach}
use cloud_devenv_sh.Base.Maps.{get}
use cloud_devenv_sh.Runner.Linux.Ends.{all_done, drop_vm-new_vm}

abbrev machines : Machines
machines = record { system = start limits; processes = []; rootfs_dirs = [] }

-- Every call succeeds.
abbrev calm : Host
calm = record {
  tempdir = true;
  vm_storage_base = true;
  vm_rootfs_dir = true;
  copy_rootfs = true;
  nix_store_dir = true;
  cp_runs = true;
  cp_succeeds = true;
  virtiofsd_spawns = true;
  hypervisor_spawns = true;
  create_vm = λ (c : HypervisorConfig). true;
}

-- The hypervisor refuses the machine.
abbrev refusing : Host
refusing = record calm { create_vm = λ (c : HypervisorConfig). false }

abbrev made : Machines
made = (new_vm calm 1 10 small machines).0

new_vm-Reach_example : Reach (start limits) made.system
unfolding get start new new_state
new_vm-Reach_example = new_vm-Reach calm 1 10 small machines refl

new_vm-Guarded_example :
    Guarded
      (new_vm refusing 2 11 small made).1
      made.system
      (new_vm refusing 2 11 small made).0.system
new_vm-Guarded_example = new_vm-Guarded refusing 2 11 small made

refused : (new_vm refusing 1 10 small machines).1 ≡ none
unfolding new_vm start new can_allocate allocate_resources
refused = ground (arith, small_fits)

-- The guest reports a failed job at the third turn.
abbrev polls : ℕ → Poll
polls i = record { job_result = if i == 2 then some false else none; process = TryWait.running }

quiet : (k : ℕ) → k < 2 → IsQuiet (polls (0 + k))
quiet k lt = (ground arith, refl)

wait_returns_example : wait 100 polls 0 ≡ some (Waited.status VmExitStatus.failure true)
wait_returns_example =
    wait_returns 2 97 polls 0 (Waited.status VmExitStatus.failure true) quiet
      (inl (false, refl, refl))

abbrev made_one : LinuxVm
made_one = record {
  id = 1;
  resource_guard = resource_guard_new 10 small;
  ip_guard = record { ip = some 167772162 };
  cid_guard = record { cid = some 3 };
}

-- One address and one context id are left.
abbrev stocked : Machines
stocked = record machines {
  system = record machines.system {
    manager = record {
      limits = limits;
      allocation = new_state;
      free_ips = 167772162 ∷ [];
      free_cids = 3 ∷ [];
    };
  };
}

made_one-made : (new_vm calm 1 10 small stocked).1 ≡ some made_one
unfolding new_vm new_held new_with_resources new_with_ip prepare allocate_resources ip_guard_new
    cid_guard_new allocate_ip allocate_cid
made_one-made = rw (new_vm, allocate_resources, small_passes) refl

drop_vm-new_vm_example :
    ((drop_vm all_done 1 (new_vm calm 1 10 small stocked).0).processes ≡ [])
    × ((drop_vm all_done 1 (new_vm calm 1 10 small stocked).0).rootfs_dirs ≡ [])
drop_vm-new_vm_example = drop_vm-new_vm calm 1 10 small stocked made_one (tt, tt) made_one-made
