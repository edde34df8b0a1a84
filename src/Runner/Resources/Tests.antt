-- ===== src/Runner/Resources/Tests.antt =====
-- Runs of the resource manager of runner/src/resource_manager.rs on small inputs.
use cloud_devenv_sh.Runner.Resources.Refusals.{refusal-IsJustified, can_allocate_exact, IsJustified}
use cloud_devenv_sh.Base.{refl, some, arith, ◌≡◌, true, ◌↔◌, suc, length, none}
use cloud_devenv_sh.Runner.Resources.{
  ResourceLimits, can_allocate, memory_bytes, new_state, check_limits, check_instances,
  check_capacity, allocate_resources, RejectionReason,
}
use cloud_devenv_sh.Protocol.{Vm, Platform}
use cloud_devenv_sh.Runner.Resources.Accounting.{IsMachine, InstancesFit, new_state-Inv, Fits}

abbrev pub limits : ResourceLimits
limits = record { max_cpus = 8; max_memory_bytes = 8589934592; max_instances = some 2 }

pub limits-IsMachine : IsMachine limits
limits-IsMachine = record { cpus_word = omega arith; memory_word = omega arith }

abbrev pub small : Vm
small = record { cpu_count = 2; memory_size_mb = 1024; platform = Platform.x86_64_linux }

abbrev large : Vm
large = record { cpu_count = 8; memory_size_mb = 1024; platform = Platform.x86_64_linux }

can_allocate_exact_example : (can_allocate limits 2 1024 new_state ≡ true) ↔ (
    InstancesFit limits.max_instances (suc (length new_state.jobs))
    × Fits limits new_state 2 (memory_bytes 1024))
can_allocate_exact_example =
    can_allocate_exact limits new_state 2 1024 limits-IsMachine (new_state-Inv limits)

pub small_fits : can_allocate limits 2 1024 new_state ≡ true
unfolding can_allocate check_limits check_instances check_capacity new_state memory_bytes
small_fits = refl

pub small_passes : check_limits new_state 2 (memory_bytes 1024) limits ≡ none
unfolding check_limits check_instances check_capacity new_state memory_bytes
small_passes = refl

refusal-IsJustified_example :
    IsJustified limits new_state large (RejectionReason.insufficient_cpu 8 7)
unfolding allocate_resources check_limits check_instances check_capacity new_state memory_bytes
refusal-IsJustified_example =
    refusal-IsJustified limits 7 large new_state (RejectionReason.insufficient_cpu 8 7)
      limits-IsMachine (new_state-Inv limits) refl
