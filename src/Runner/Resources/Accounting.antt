-- ===== src/Runner/Resources/Accounting.antt =====
-- The books of the resource manager: the counters against the table of jobs, and the limits.
use cloud_devenv_sh.Base.{
  ℕ, suc, ◌+◌, ◌≤◌, ◌<◌, ◌≡◌, refl, ◌⊎◌, inl, inr, Option, none, some, arith, IsUnique, length,
  Option-cases,
}
use cloud_devenv_sh.Base.Maps.{
  get, total, total-remove, length-remove-le, total-insert, length-insert, remove-IsUnique,
  insert-IsUnique,
}
use cloud_devenv_sh.Protocol.{Vm}
use cloud_devenv_sh.Runner.Resources.{
  ResourceState, ResourceLimits, Allocation, word, memory_bytes, memory_buffer, new_state,
  check_instances, check_capacity, check_limits, allocate_resources, release_job,
}

-- The limits are machine words.
pub record IsMachine (limits : ResourceLimits) : Type 0 where
  pub cpus_word : limits.max_cpus < word
  pub memory_word : limits.max_memory_bytes < word

abbrev pub cpus_of : Vm → ℕ
cpus_of vm = vm.cpu_count

abbrev pub bytes_of : Vm → ℕ
bytes_of vm = memory_bytes vm.memory_size_mb

abbrev pub InstancesFit : Option ℕ → ℕ → Type 0
InstancesFit none n = Unit
InstancesFit (some max) n = n ≤ max

-- The counters are the sums over the registered jobs, and unless nothing is taken one CPU and
-- 100 MB stay free.
pub record Inv (limits : ResourceLimits) (s : ResourceState) : Type 0 where
  pub unique : IsUnique s.jobs
  pub cpus_counted : s.allocated_cpus ≡ total cpus_of s.jobs
  pub memory_counted : s.allocated_memory ≡ total bytes_of s.jobs
  pub cpus_fit : (s.allocated_cpus ≡ 0) ⊎ (s.allocated_cpus + 1 ≤ limits.max_cpus)
  pub memory_fit :
      (s.allocated_memory ≡ 0) ⊎ (s.allocated_memory + memory_buffer ≤ limits.max_memory_bytes)
  pub instances_fit : InstancesFit limits.max_instances (length s.jobs)

InstancesFit-mono : {m n : ℕ} (o : Option ℕ) → m ≤ n → InstancesFit o n → InstancesFit o m
InstancesFit-mono none h f = tt
InstancesFit-mono (some max) h f = omega arith

pub new_state-Inv : (limits : ResourceLimits) → Inv limits new_state
unfolding new_state total
new_state-Inv limits = record {
  unique = tt;
  cpus_counted = refl;
  memory_counted = refl;
  cpus_fit = inl refl;
  memory_fit = inl refl;
  instances_fit = fits limits.max_instances;
}
  where
    fits : (o : Option ℕ) → InstancesFit o 0
    fits none = tt
    fits (some max) = omega arith

-- What a passed check says, on the numbers.
abbrev pub Fits : ResourceLimits → ResourceState → ℕ → ℕ → Type 0
Fits limits s cpus bytes =
    ((cpus ≡ 0) ⊎ (s.allocated_cpus + 1 + cpus ≤ limits.max_cpus))
    × ((bytes ≡ 0) ⊎ (s.allocated_memory + memory_buffer + bytes ≤ limits.max_memory_bytes))

check_capacity-Fits :
    (limits : ResourceLimits) (s : ResourceState) (cpus bytes : ℕ)
    → IsMachine limits
    → Inv limits s
    → check_capacity s cpus bytes limits ≡ none
    → Fits limits s cpus bytes
unfolding check_capacity
check_capacity-Fits limits s cpus bytes m v h = ground arith

check_instances-InstancesFit :
    (s : ResourceState) (max : Option ℕ)
    → check_instances s max ≡ none
    → InstancesFit max (suc (length s.jobs))
unfolding check_instances
check_instances-InstancesFit s none h = tt
check_instances-InstancesFit s (some max) h = ground arith

-- A passed check is one that passed both parts.
check_limits-parts :
    (limits : ResourceLimits) (s : ResourceState) (cpus bytes : ℕ)
    → check_limits s cpus bytes limits ≡ none
    → (check_instances s limits.max_instances ≡ none) × (check_capacity s cpus bytes limits ≡ none)
unfolding check_limits
check_limits-parts limits s cpus bytes h =
    elim (Option-cases (check_instances s limits.max_instances)) [
      | inl e ↦ (e, rw (e, check_limits) at h)
      | inr (r, e) ↦ cc (rw (e, check_limits) at h)
    ]

-- The state after an allocation that succeeds; a refusal leaves the state as it was.
abbrev pub after_allocation : ResourceState → Allocation → ResourceState
after_allocation s (Allocation.ok s' job_id vm) = s'
after_allocation s (Allocation.err reason) = s

registered :
    (limits : ResourceLimits) (job_id : ℕ) (vm : Vm) (s : ResourceState)
    → IsMachine limits
    → Inv limits s
    → get job_id s.jobs ≡ none
    → check_limits s vm.cpu_count (memory_bytes vm.memory_size_mb) limits ≡ none
    → Inv limits (after_allocation s (allocate_resources limits job_id vm s))
unfolding allocate_resources
registered limits job_id vm s m v fresh passed =
    let bytes : ℕ = memory_bytes vm.memory_size_mb in
    let parts = check_limits-parts limits s vm.cpu_count bytes passed in
    let fits = check_capacity-Fits limits s vm.cpu_count bytes m v parts.1 in
    rw (passed, allocate_resources)
      (record {
        unique = insert-IsUnique job_id vm s.jobs v.unique;
        cpus_counted = omega (arith, total-insert cpus_of job_id vm s.jobs fresh);
        memory_counted = omega (arith, total-insert bytes_of job_id vm s.jobs fresh);
        cpus_fit = omega arith;
        memory_fit = omega arith;
        instances_fit =
            rw (length-insert job_id vm s.jobs fresh)
              (check_instances-InstancesFit s limits.max_instances parts.0);
      })

-- Allocating for a job that is not registered keeps the books, whether it succeeds or not.
pub allocate_resources-Inv :
    (limits : ResourceLimits) (job_id : ℕ) (vm : Vm) (s : ResourceState)
    → IsMachine limits
    → Inv limits s
    → get job_id s.jobs ≡ none
    → Inv limits (after_allocation s (allocate_resources limits job_id vm s))
unfolding allocate_resources
allocate_resources-Inv limits job_id vm s m v fresh =
    elim (Option-cases (check_limits s vm.cpu_count (memory_bytes vm.memory_size_mb) limits)) [
      | inl passed ↦ registered limits job_id vm s m v fresh passed
      | inr (reason, refused) ↦ rw (refused, allocate_resources) v
    ]

-- Releasing a job, registered or not, keeps the books.
pub release_job-Inv :
    (limits : ResourceLimits) (job_id : ℕ) (s : ResourceState)
    → Inv limits s
    → Inv limits (release_job job_id s).0
unfolding release_job
release_job-Inv limits job_id s v = elim (Option-cases (get job_id s.jobs)) [
  | inl e ↦ rw (e, release_job) v
  | inr (vm, e) ↦
      rw (e, release_job)
        (record {
          unique = remove-IsUnique job_id s.jobs v.unique;
          cpus_counted = omega (arith, total-remove cpus_of job_id vm s.jobs v.unique e);
          memory_counted = omega (arith, total-remove bytes_of job_id vm s.jobs v.unique e);
          cpus_fit = omega arith;
          memory_fit = omega arith;
          instances_fit =
              InstancesFit-mono limits.max_instances (length-remove-le job_id s.jobs)
                v.instances_fit;
        })
]
