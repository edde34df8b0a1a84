-- ===== src/Runner/Resources/Guards/Tests.antt =====
-- A run of the guards of runner/src/resource_manager.rs: a machine is allocated, its guard dropped, and
-- the task of the drop run.
use cloud_devenv_sh.Base.{
  length, ◌≤◌, ◌⊎◌, false, ℕ, refl, [], ◌∷◌, count, ◌≡◌, if◌then◌else◌, leb, List, arith,
}
use cloud_devenv_sh.Runner.Resources.Guards.{
  start, System, Task, resource_guard_new, run_task, resource_guard_drop, Reach, Step,
}
use cloud_devenv_sh.Runner.Resources.Tests.{limits, small, limits-IsMachine}
use cloud_devenv_sh.Runner.Resources.Guards.Ips.{ip_count}
use cloud_devenv_sh.Runner.Resources.{
  ResourceState, ResourceLimits, ipv4, new, new_state, allocate_resources, check_limits,
  check_instances, check_capacity, memory_bytes, can_allocate,
}
use cloud_devenv_sh.Runner.Resources.Accounting.{Inv, IsMachine}
use cloud_devenv_sh.Base.Maps.{keys, get, insert, remove}
use cloud_devenv_sh.Runner.Resources.Guards.Books.{owners}
use cloud_devenv_sh.Runner.Resources.Guards.NoLeak.{books_kept, ip_in_one_place, no_leak}
use cloud_devenv_sh.Runner.Resources.Platforms.{with_platform_defaults}
use cloud_devenv_sh.Protocol.{Platform}
use cloud_devenv_sh.Runner.Resources.Guards.Instances.{one_machine}

abbrev books : ResourceState
books = record { allocated_cpus = 2; allocated_memory = 1073741824; jobs = (7, small) ∷ [] }

abbrev guarded : System
guarded = record (start limits) {
  manager = record (start limits).manager { allocation = books };
  resource_guards = resource_guard_new 7 small ∷ [];
}

abbrev dropped : System
dropped = record guarded { resource_guards = []; tasks = Task.task_release_job 7 ∷ [] }

abbrev released : System
released = record dropped {
  manager = run_task (Task.task_release_job 7) dropped.manager;
  tasks = [];
}

guarded-Reach : Reach (start limits) guarded
unfolding start new new_state get allocate_resources check_limits check_instances check_capacity
    memory_bytes insert remove
guarded-Reach = Reach.next Reach.here (Step.new_resource 7 7 small small books refl refl refl)

released-Reach : Reach (start limits) released
unfolding start resource_guard_new resource_guard_drop
released-Reach =
    Reach.next
      (Reach.next guarded-Reach (Step.drop_resource [] [] (resource_guard_new 7 small) refl refl))
      (Step.run [] [] (Task.task_release_job 7) refl refl)

no_leak_example :
    (released.manager.allocation ≡ new_state)
    × (count 167772162 released.manager.free_ips ≡ count 167772162 (new limits).free_ips)
    × (count 3 released.manager.free_cids ≡ count 3 (new limits).free_cids)
unfolding start
no_leak_example =
    no_leak limits 167772162 3 limits-IsMachine released-Reach refl refl refl refl refl refl

books_kept_example :
    Inv limits guarded.manager.allocation
    × ((a : ℕ) → count a (keys guarded.manager.allocation.jobs) ≡ owners a guarded)
books_kept_example = books_kept limits limits-IsMachine guarded-Reach

ip_in_one_place_example : ip_count 167772162 released ≡ (
    if leb (ipv4 10 0 0 2) 167772162 then (if leb 167772162 (ipv4 10 0 0 254) then 1 else 0) else 0)
ip_in_one_place_example = ip_in_one_place limits 167772162 released-Reach

abbrev processors : List ℕ
processors = 0 ∷ 1 ∷ 2 ∷ 3 ∷ []

mac-IsMachine : IsMachine (with_platform_defaults Platform.aarch64_darwin processors 8589934592)
unfolding with_platform_defaults
mac-IsMachine = omega arith

abbrev mac_limits : ResourceLimits
mac_limits = with_platform_defaults Platform.aarch64_darwin processors 8589934592

-- One machine has resources, and its guard is there.
abbrev busy : System
busy = record (start mac_limits) {
  manager = record (start mac_limits).manager { allocation = books };
  resource_guards = resource_guard_new 7 small ∷ [];
}

busy-Reach : Reach (start mac_limits) busy
unfolding start new new_state get allocate_resources check_limits check_instances check_capacity
    memory_bytes insert remove with_platform_defaults
busy-Reach = Reach.next Reach.here (Step.new_resource 7 7 small small books refl refl refl)

one_machine_example :
    (length busy.manager.allocation.jobs ≤ 1)
    × (((busy.manager.allocation.jobs ≡ []) × ((a : ℕ) → owners a busy ≡ 0))
        ⊎ (can_allocate mac_limits 1 1024 busy.manager.allocation ≡ false))
one_machine_example = one_machine processors 8589934592 1 1024 mac-IsMachine busy-Reach
