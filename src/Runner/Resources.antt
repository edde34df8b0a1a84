-- ===== src/Runner/Resources.antt =====
-- runner/src/resource_manager.rs: the limits of a runner, and what its jobs have taken of them.
-- `usize` and `u64` are 64 bits wide; sums and products wrap as they do in a release build. Each
-- method holds the lock of the state it touches, so a method is one step. The RAII guards, whose
-- `drop` releases in a task of its own, are in the child module Guards.
pub mod Accounting
pub mod Refusals
pub mod Tests
pub mod Platforms
pub mod Guards
use cloud_devenv_sh.Base.{
  ℕ, ◌+◌, ◌-◌, ◌*◌, ◌/◌, ◌%◌, ◌^◌, Bool, true, false, Option, none, some, List, [], ◌∷◌, ◌++◌, Map,
  ltb, leb, if◌then◌else◌, length, range,
}
use cloud_devenv_sh.Base.Maps.{get, insert, remove, contains_key}
use cloud_devenv_sh.Protocol.{Vm}

pub data RejectionReason : Type 0 where
  insufficient_cpu insufficient_memory instance_limit_reached : ℕ → ℕ → RejectionReason

pub record ResourceState : Type 0 where
  pub allocated_cpus : ℕ
  pub allocated_memory : ℕ
  pub jobs : Map Vm

unfoldable pub new_state : ResourceState
new_state = record { allocated_cpus = 0; allocated_memory = 0; jobs = [] }

pub record ResourceLimits : Type 0 where
  pub max_cpus : ℕ
  pub max_memory_bytes : ℕ
  pub max_instances : Option ℕ

abbrev pub word : ℕ
word = 2 ^ 64

-- `memory_size_mb * 1024 * 1024`
unfoldable pub memory_bytes : ℕ → ℕ
memory_bytes mb = ((mb * 1024) % word * 1024) % word

-- 100 MB and one CPU stay free.
abbrev pub memory_buffer : ℕ
memory_buffer = 100 * 1024 * 1024

-- The first test of `check_limits`.
check_instances : ResourceState → Option ℕ → Option RejectionReason
check_instances s none = none
check_instances s (some max) =
    if leb max (length s.jobs)
    then some (RejectionReason.instance_limit_reached (length s.jobs) max)
    else none

-- The second and the third.
check_capacity : ResourceState → ℕ → ℕ → ResourceLimits → Option RejectionReason
check_capacity s cpus bytes limits =
    let available_cpus = limits.max_cpus - (s.allocated_cpus + 1) % word in
    let available_memory = limits.max_memory_bytes - (s.allocated_memory + memory_buffer) % word in
    if ltb available_cpus cpus
    then some (RejectionReason.insufficient_cpu cpus available_cpus)
    else if ltb available_memory bytes
    then some (RejectionReason.insufficient_memory bytes available_memory)
    else none

unfoldable pub check_limits : ResourceState → ℕ → ℕ → ResourceLimits → Option RejectionReason
unfolding check_instances check_capacity
check_limits s cpus bytes limits = elim (check_instances s limits.max_instances) [
  | some reason ↦ some reason
  | none ↦ check_capacity s cpus bytes limits
]

-- `Ipv4Addr::new`, as the 32-bit number of the address.
abbrev pub ipv4 : ℕ → ℕ → ℕ → ℕ → ℕ
ipv4 a b c d = a * 16777216 + b * 65536 + c * 256 + d

pub record ResourceManager : Type 0 where
  pub limits : ResourceLimits
  pub allocation : ResourceState
  pub free_ips : List ℕ
  pub free_cids : List ℕ

-- 10.0.0.2 to 10.0.0.254, and the context ids 3 to 1024.
unfoldable pub new : ResourceLimits → ResourceManager
unfolding new_state
new limits = record {
  limits = limits;
  allocation = new_state;
  free_ips = range (ipv4 10 0 0 2) 253;
  free_cids = range 3 1022;
}

-- `pop_front` of a pool.
abbrev pub pop_front : List ℕ → Option ℕ × List ℕ
pop_front [] = (none, [])
pop_front (x ∷ xs) = (some x, xs)

unfoldable pub allocate_ip : ResourceManager → Option ℕ × ResourceManager
allocate_ip m = let (ip, rest) = pop_front m.free_ips in (ip, record m { free_ips = rest })

unfoldable pub release_ip : ℕ → ResourceManager → ResourceManager
release_ip ip m = record m { free_ips = m.free_ips ++ ip ∷ [] }

unfoldable pub allocate_cid : ResourceManager → Option ℕ × ResourceManager
allocate_cid m = let (cid, rest) = pop_front m.free_cids in (cid, record m { free_cids = rest })

unfoldable pub release_cid : ℕ → ResourceManager → ResourceManager
release_cid cid m = record m { free_cids = m.free_cids ++ cid ∷ [] }

pub data Allocation : Type 0 where
  -- the new state, and the job and the machine that the guard holds
  ok : ResourceState → ℕ → Vm → Allocation
  err : RejectionReason → Allocation

unfoldable pub allocate_resources : ResourceLimits → ℕ → Vm → ResourceState → Allocation
allocate_resources limits job_id vm s =
    elim (check_limits s vm.cpu_count (memory_bytes vm.memory_size_mb) limits) [
      | some reason ↦ Allocation.err reason
      | none ↦
          Allocation.ok
            (record {
              allocated_cpus = (s.allocated_cpus + vm.cpu_count) % word;
              allocated_memory = (s.allocated_memory + memory_bytes vm.memory_size_mb) % word;
              jobs = insert job_id vm s.jobs;
            })
            job_id vm
    ]

unfoldable pub can_allocate : ResourceLimits → ℕ → ℕ → ResourceState → Bool
can_allocate limits cpu_count memory_mb s =
    elim (check_limits s cpu_count (memory_bytes memory_mb) limits) [ none ↦ true | some _ ↦ false ]

unfoldable pub release_job : ℕ → ResourceState → ResourceState × Option Vm
release_job job_id s = elim (get job_id s.jobs) [
  | none ↦ (s, none)
  | some vm ↦ (
    record {
      allocated_cpus = s.allocated_cpus - vm.cpu_count;
      allocated_memory = s.allocated_memory - memory_bytes vm.memory_size_mb;
      jobs = remove job_id s.jobs;
    },
    some vm,
  )
]

unfoldable pub has_minimal_capacity : ResourceLimits → ResourceState → Bool
has_minimal_capacity limits s = can_allocate limits 1 0 s

unfoldable pub is_job_registered : ℕ → ResourceState → Bool
is_job_registered job_id s = contains_key job_id s.jobs

unfoldable pub get_job_vm_config : ℕ → ResourceState → Option Vm
get_job_vm_config job_id s = get job_id s.jobs

unfoldable pub active_job_count : ResourceState → ℕ
active_job_count s = length s.jobs

unfoldable pub get_usage_stats : ResourceState → ℕ × ℕ
get_usage_stats s = (s.allocated_cpus, s.allocated_memory / (1024 * 1024))
