-- ===== src/Runner/Resources/Guards.antt =====
-- The RAII guards of runner/src/resource_manager.rs, and the system of a manager with its live
-- guards. `drop` cannot wait, so it spawns a task that releases later: a task runs at any time.
mod Ips
mod Cids
mod Books
mod NoLeak
mod Instances
mod Tests
use cloud_devenv_sh.Base.{ℕ, ◌≡◌, Option, none, some, List, [], ◌∷◌, ◌++◌}
use cloud_devenv_sh.Base.Maps.{get}
use cloud_devenv_sh.Protocol.{Vm}
use cloud_devenv_sh.Runner.Resources.{
  ResourceManager, ResourceState, ResourceLimits, Allocation, new, allocate_ip, release_ip,
  allocate_cid, release_cid, allocate_resources, release_job,
}

pub data Task : Type 0 where
  task_release_ip task_release_cid task_release_job : ℕ → Task

unfoldable pub run_task : Task → ResourceManager → ResourceManager
run_task (Task.task_release_ip ip) m = release_ip ip m
run_task (Task.task_release_cid cid) m = release_cid cid m
run_task (Task.task_release_job job_id) m = record m {
  allocation = (release_job job_id m.allocation).0;
}

pub record IpGuard : Type 0 where
  pub ip : Option ℕ

unfoldable pub ip_guard_new : ResourceManager → Option IpGuard × ResourceManager
ip_guard_new m =
    let (ip, m') = allocate_ip m in
    elim ip [ none ↦ (none, m') | some a ↦ (some (record { ip = some a }), m') ]

-- The address, and what is left of the guard, which is dropped next.
unfoldable pub ip_guard_take : IpGuard → Option ℕ × IpGuard
ip_guard_take g = (g.ip, record { ip = none })

-- The tasks that `drop` spawns.
unfoldable pub ip_guard_drop : IpGuard → List Task
ip_guard_drop g = elim g.ip [ none ↦ [] | some a ↦ Task.task_release_ip a ∷ [] ]

pub record CidGuard : Type 0 where
  pub cid : Option ℕ

unfoldable pub cid_guard_new : ResourceManager → Option CidGuard × ResourceManager
cid_guard_new m =
    let (cid, m') = allocate_cid m in
    elim cid [ none ↦ (none, m') | some a ↦ (some (record { cid = some a }), m') ]

unfoldable pub cid_guard_drop : CidGuard → List Task
cid_guard_drop g = elim g.cid [ none ↦ [] | some a ↦ Task.task_release_cid a ∷ [] ]

pub record ResourceGuard : Type 0 where
  pub job_id : Option ℕ
  pub vm : Option Vm

unfoldable pub resource_guard_new : ℕ → Vm → ResourceGuard
resource_guard_new job_id vm = record { job_id = some job_id; vm = some vm }

abbrev both : Option ℕ → Option Vm → Option (ℕ × Vm)
both (some id) (some vm) = some (id, vm)
both _ _ = none

unfoldable pub resource_guard_take : ResourceGuard → Option (ℕ × Vm) × ResourceGuard
resource_guard_take g = (both g.job_id g.vm, record { job_id = none; vm = none })

unfoldable pub resource_guard_drop : ResourceGuard → List Task
resource_guard_drop g = elim g.job_id [ none ↦ [] | some id ↦ Task.task_release_job id ∷ [] ]

pub record System : Type 0 where
  pub manager : ResourceManager
  pub ip_guards : List IpGuard
  pub cid_guards : List CidGuard
  pub resource_guards : List ResourceGuard
  -- spawned by a drop, and not run yet
  pub tasks : List Task
  -- given to a caller of `take`
  pub taken_ips : List ℕ
  pub taken_jobs : List ℕ

unfoldable pub start : ResourceLimits → System
start limits = record {
  manager = new limits;
  ip_guards = [];
  cid_guards = [];
  resource_guards = [];
  tasks = [];
  taken_ips = [];
  taken_jobs = [];
}

-- The two lists with `x` taken out from between them.
abbrev pub Splits {ℓ} : {A : Type ℓ} → List A → List A → A → List A → Type ℓ
Splits l xs x ys = l ≡ xs ++ x ∷ ys

-- What any interleaving of the runner's tasks can do to the system. A job id is a fresh `now_v7`.
pub data Step (s t : System) : Type 0 where
  new_ip :
      (g : IpGuard) (m : ResourceManager)
      → ip_guard_new s.manager ≡ (some g, m)
      → t ≡ record s { manager = m; ip_guards = g ∷ s.ip_guards }
      → Step s t
  drop_ip :
      (xs ys : List IpGuard) (g : IpGuard)
      → Splits s.ip_guards xs g ys
      → t ≡ record s { ip_guards = xs ++ ys; tasks = ip_guard_drop g ++ s.tasks }
      → Step s t
  take_ip :
      (xs ys : List IpGuard) (g : IpGuard) (a : ℕ)
      → Splits s.ip_guards xs g ys
      → (ip_guard_take g).0 ≡ some a
      → t ≡ record s {
        ip_guards = xs ++ ys;
        tasks = ip_guard_drop (ip_guard_take g).1 ++ s.tasks;
        taken_ips = a ∷ s.taken_ips;
      }
      → Step s t
  new_cid :
      (g : CidGuard) (m : ResourceManager)
      → cid_guard_new s.manager ≡ (some g, m)
      → t ≡ record s { manager = m; cid_guards = g ∷ s.cid_guards }
      → Step s t
  drop_cid :
      (xs ys : List CidGuard) (g : CidGuard)
      → Splits s.cid_guards xs g ys
      → t ≡ record s { cid_guards = xs ++ ys; tasks = cid_guard_drop g ++ s.tasks }
      → Step s t
  new_resource :
      (id job_id : ℕ) (vm vm' : Vm) (a : ResourceState)
      → get id s.manager.allocation.jobs ≡ none
      → allocate_resources s.manager.limits id vm s.manager.allocation ≡ Allocation.ok a job_id vm'
      → t ≡ record s {
        manager = record s.manager { allocation = a };
        resource_guards = resource_guard_new job_id vm' ∷ s.resource_guards;
      }
      → Step s t
  drop_resource :
      (xs ys : List ResourceGuard) (g : ResourceGuard)
      → Splits s.resource_guards xs g ys
      → t ≡ record s { resource_guards = xs ++ ys; tasks = resource_guard_drop g ++ s.tasks }
      → Step s t
  take_resource :
      (xs ys : List ResourceGuard) (g : ResourceGuard) (id : ℕ) (vm : Vm)
      → Splits s.resource_guards xs g ys
      → (resource_guard_take g).0 ≡ some (id, vm)
      → t ≡ record s {
        resource_guards = xs ++ ys;
        tasks = resource_guard_drop (resource_guard_take g).1 ++ s.tasks;
        taken_jobs = id ∷ s.taken_jobs;
      }
      → Step s t
  run :
      (xs ys : List Task) (task : Task)
      → Splits s.tasks xs task ys
      → t ≡ record s { manager = run_task task s.manager; tasks = xs ++ ys }
      → Step s t

pub data Reach (s : System) : System → Type 0 where
  here : Reach s s
  next : {t u : System} → Reach s t → Step t u → Reach s u
