-- ===== src/Runner/Resources/Refusals.antt =====
-- When the resource manager refuses a job, with what reason, and what a release gives back.
use cloud_devenv_sh.Base.{
  ℕ, suc, ◌≡◌, ◌↔◌, refl, inl, inr, true, Option, none, some, arith, length, Option-cases, ◌<◌, ◌≤◌,
  ◌+◌, ◌-◌, ◌^◌, ◌∙◌, ◌%◌, ◌*◌, ==_refl,
}
use mathlib.Core.Bool.{false≢true}
use cloud_devenv_sh.Runner.Resources.{
  ResourceState, ResourceLimits, memory_bytes, check_instances, check_capacity, check_limits,
  can_allocate, allocate_resources, RejectionReason, release_job, Allocation, memory_buffer, word,
}
use cloud_devenv_sh.Runner.Resources.Accounting.{Inv, IsMachine, InstancesFit, Fits}
use cloud_devenv_sh.Protocol.{Vm}
use cloud_devenv_sh.Base.Maps.{get, insert, remove, remove-insert, get-insert}

InstancesFit-check :
    (s : ResourceState) (max : Option ℕ)
    → InstancesFit max (suc (length s.jobs))
    → check_instances s max ≡ none
unfolding check_instances
InstancesFit-check s none f = refl
InstancesFit-check s (some max) f = ground arith

check-InstancesFit :
    (s : ResourceState) (max : Option ℕ)
    → check_instances s max ≡ none
    → InstancesFit max (suc (length s.jobs))
unfolding check_instances
check-InstancesFit s none h = tt
check-InstancesFit s (some max) h = ground arith

capacity_exact :
    (limits : ResourceLimits) (s : ResourceState) (cpus bytes : ℕ)
    → IsMachine limits
    → Inv limits s
    → (check_capacity s cpus bytes limits ≡ none) ↔ Fits limits s cpus bytes
unfolding check_capacity
capacity_exact limits s cpus bytes m v = (λ h. ground arith, λ h. ground arith)

-- On well-kept books a machine is accepted exactly if there is a free instance, enough processors
-- beside the one that is held back, and enough memory beside the 100 MB that are held back; asking for
-- no processors, or no memory, always fits.
pub can_allocate_exact :
    (limits : ResourceLimits) (s : ResourceState) (cpu_count memory_mb : ℕ)
    → IsMachine limits
    → Inv limits s
    → (can_allocate limits cpu_count memory_mb s ≡ true) ↔ (
        InstancesFit limits.max_instances (suc (length s.jobs))
        × Fits limits s cpu_count (memory_bytes memory_mb))
unfolding can_allocate check_limits
can_allocate_exact limits s cpu_count memory_mb m v = (forth, back)
  where
    bytes : ℕ
    bytes = memory_bytes memory_mb

    exact : (check_capacity s cpu_count bytes limits ≡ none) ↔ Fits limits s cpu_count bytes
    exact = capacity_exact limits s cpu_count bytes m v

    forth :
        can_allocate limits cpu_count memory_mb s ≡ true
        → InstancesFit limits.max_instances (suc (length s.jobs)) × Fits limits s cpu_count bytes
    forth h = elim (Option-cases (check_instances s limits.max_instances)) [
      | inl a ↦ elim (Option-cases (check_capacity s cpu_count bytes limits)) [
        | inl b ↦ (check-InstancesFit s limits.max_instances a, exact.0 b)
        | inr (r, b) ↦ absurd (false≢true (rw (a, b, check_limits, can_allocate) at h))
      ]
      | inr (r, a) ↦ absurd (false≢true (rw (a, check_limits, can_allocate) at h))
    ]

    back :
        InstancesFit limits.max_instances (suc (length s.jobs)) × Fits limits s cpu_count bytes
        → can_allocate limits cpu_count memory_mb s ≡ true
    back f =
        let a = InstancesFit-check s limits.max_instances f.0 in
        let b = exact.1 f.1 in rw (a, b, check_limits, can_allocate)

-- What a reason says of the state, the limits and the machine.
abbrev pub IsJustified : ResourceLimits → ResourceState → Vm → RejectionReason → Type 0
IsJustified limits s vm (RejectionReason.instance_limit_reached current max) =
    (current ≡ length s.jobs) × (limits.max_instances ≡ some max) × (max ≤ current)
IsJustified limits s vm (RejectionReason.insufficient_cpu required available) =
    (required ≡ vm.cpu_count)
    × (available ≡ limits.max_cpus - (s.allocated_cpus + 1))
    × (available < required)
IsJustified limits s vm (RejectionReason.insufficient_memory required available) =
    (required ≡ memory_bytes vm.memory_size_mb)
    × (available ≡ limits.max_memory_bytes - (s.allocated_memory + memory_buffer))
    × (available < required)

instances-IsJustified :
    (limits : ResourceLimits) (s : ResourceState) (vm : Vm) (o : Option ℕ)
    (reason : RejectionReason)
    → limits.max_instances ≡ o
    → check_instances s o ≡ some reason
    → IsJustified limits s vm reason
unfolding check_instances
instances-IsJustified limits s vm none reason l h = cc
instances-IsJustified limits s vm (some max) (RejectionReason.instance_limit_reached c m) l h =
    ground arith
instances-IsJustified limits s vm (some max) (RejectionReason.insufficient_cpu c m) l h =
    ground arith
instances-IsJustified limits s vm (some max) (RejectionReason.insufficient_memory c m) l h =
    ground arith

capacity-IsJustified :
    (limits : ResourceLimits) (s : ResourceState) (vm : Vm) (reason : RejectionReason)
    → IsMachine limits
    → Inv limits s
    → check_capacity s vm.cpu_count (memory_bytes vm.memory_size_mb) limits ≡ some reason
    → IsJustified limits s vm reason
unfolding check_capacity
capacity-IsJustified limits s vm (RejectionReason.instance_limit_reached c a) m v h = ground arith
capacity-IsJustified limits s vm (RejectionReason.insufficient_cpu r a) m v h = ground arith
capacity-IsJustified limits s vm (RejectionReason.insufficient_memory r a) m v h = ground arith

refused-check_limits :
    (limits : ResourceLimits) (job_id : ℕ) (vm : Vm) (s : ResourceState) (reason : RejectionReason)
    → allocate_resources limits job_id vm s ≡ Allocation.err reason
    → check_limits s vm.cpu_count (memory_bytes vm.memory_size_mb) limits ≡ some reason
unfolding allocate_resources
refused-check_limits limits job_id vm s reason h = ground arith

limits-IsJustified :
    (limits : ResourceLimits) (vm : Vm) (s : ResourceState) (reason : RejectionReason)
    → IsMachine limits
    → Inv limits s
    → check_limits s vm.cpu_count (memory_bytes vm.memory_size_mb) limits ≡ some reason
    → IsJustified limits s vm reason
unfolding check_limits
limits-IsJustified limits vm s reason m v h =
    elim (Option-cases (check_instances s limits.max_instances)) [
      | inl a ↦ capacity-IsJustified limits s vm reason m v (rw (a, check_limits) at h)
      | inr (r, a) ↦
          instances-IsJustified limits s vm limits.max_instances reason refl
            (a ∙ (rw (a, check_limits) at h))
    ]

-- A refusal on well-kept books names what is short: the instances in use and their limit, or the
-- processors or bytes asked for and the smaller number that is free beside the reserve.
pub refusal-IsJustified :
    (limits : ResourceLimits) (job_id : ℕ) (vm : Vm) (s : ResourceState) (reason : RejectionReason)
    → IsMachine limits
    → Inv limits s
    → allocate_resources limits job_id vm s ≡ Allocation.err reason
    → IsJustified limits s vm reason
refusal-IsJustified limits job_id vm s reason m v h =
    limits-IsJustified limits vm s reason m v (refused-check_limits limits job_id vm s reason h)

-- For a machine of less than 2^32 MB, which is all that a devenv.yaml can ask for, the product that
-- the limit is checked against does not wrap.
pub memory_bytes_exact : (mb : ℕ) → mb < 2 ^ 32 → memory_bytes mb ≡ mb * (1024 * 1024)
unfolding memory_bytes
memory_bytes_exact mb h = omega arith

release_fresh :
    (limits : ResourceLimits) (job_id : ℕ) (vm : Vm) (s : ResourceState)
    → IsMachine limits
    → Inv limits s
    → get job_id s.jobs ≡ none
    → Fits limits s vm.cpu_count (memory_bytes vm.memory_size_mb)
    → release_job job_id (record {
      allocated_cpus = (s.allocated_cpus + vm.cpu_count) % word;
      allocated_memory = (s.allocated_memory + memory_bytes vm.memory_size_mb) % word;
      jobs = insert job_id vm s.jobs;
    })
      ≡ (s, some vm)
unfolding release_job
release_fresh limits job_id vm s m v fresh f =
    rw (get-insert job_id job_id vm s.jobs, ==_refl job_id, release_job)
      (λ i.
        (record { allocated_cpus = cpus i; allocated_memory = memory i; jobs = jobs i }, some vm))
  where
    cpus : (s.allocated_cpus + vm.cpu_count) % word - vm.cpu_count ≡ s.allocated_cpus
    cpus = omega arith

    memory :
        (s.allocated_memory + memory_bytes vm.memory_size_mb) % word
          - memory_bytes vm.memory_size_mb
        ≡ s.allocated_memory
    memory = omega arith

    jobs : remove job_id (insert job_id vm s.jobs) ≡ s.jobs
    jobs = remove-insert job_id vm s.jobs fresh

-- Releasing a job right after it was allocated gives the machine back and restores the state.
pub release-allocate :
    (limits : ResourceLimits) (job_id id : ℕ) (vm vm' : Vm) (s s' : ResourceState)
    → IsMachine limits
    → Inv limits s
    → get job_id s.jobs ≡ none
    → allocate_resources limits job_id vm s ≡ Allocation.ok s' id vm'
    → release_job id s' ≡ (s, some vm)
unfolding allocate_resources can_allocate
release-allocate limits job_id id vm vm' s s' m v fresh h =
    elim (Option-cases (check_limits s vm.cpu_count (memory_bytes vm.memory_size_mb) limits)) [
      | inl passed ↦ released (rw (passed, allocate_resources) at h) (fits passed)
      | inr (r, refused) ↦ cc (rw (refused, allocate_resources) at h)
    ]
  where
    fits :
        check_limits s vm.cpu_count (memory_bytes vm.memory_size_mb) limits ≡ none
        → Fits limits s vm.cpu_count (memory_bytes vm.memory_size_mb)
    fits p =
        ((can_allocate_exact limits s vm.cpu_count vm.memory_size_mb m v).0
          (rw (p, can_allocate))).1

    after : ResourceState
    after = record {
      allocated_cpus = (s.allocated_cpus + vm.cpu_count) % word;
      allocated_memory = (s.allocated_memory + memory_bytes vm.memory_size_mb) % word;
      jobs = insert job_id vm s.jobs;
    }

    released :
        Allocation.ok after job_id vm ≡ Allocation.ok s' id vm'
        → Fits limits s vm.cpu_count (memory_bytes vm.memory_size_mb)
        → release_job id s' ≡ (s, some vm)
    released e f = cc (release_fresh limits job_id vm s m v fresh f)
