-- ===== src/Runner/Resources/Guards/Ips.antt =====
-- runner/src/resource_manager.rs: how often an address stands in a system, and what each step does to
-- that number.
use cloud_devenv_sh.Base.{
  ℕ, ◌+◌, ◌≡◌, refl, ap, Option, none, some, List, [], ◌∷◌, ◌++◌, arith, count, collect,
  count-append, count-collect,
}
use cloud_devenv_sh.Runner.Resources.{
  ResourceManager, allocate_ip, release_ip, allocate_cid, release_cid,
}
use cloud_devenv_sh.Runner.Resources.Guards.{
  Task, IpGuard, CidGuard, ResourceGuard, System, Step, run_task, ip_guard_new, ip_guard_take,
  ip_guard_drop, cid_guard_new, cid_guard_drop, resource_guard_take, resource_guard_drop,
}

abbrev pub task_ip : Task → Option ℕ
task_ip (Task.task_release_ip a) = some a
task_ip _ = none

abbrev pub guard_ip : IpGuard → Option ℕ
guard_ip g = g.ip

-- How often an address is in the system: free, in a guard, in a release task, or taken.
abbrev pub ip_count : ℕ → System → ℕ
ip_count a s =
    count a s.manager.free_ips
    + count a (collect guard_ip s.ip_guards)
    + count a (collect task_ip s.tasks)
    + count a s.taken_ips

module _ (a : ℕ) where
  drop_ip-count :
      (g : IpGuard) (ys : List IpGuard) (ts : List Task)
      → count a (collect task_ip (ip_guard_drop g ++ ts)) + count a (collect guard_ip ys)
        ≡ count a (collect guard_ip (g ∷ ys)) + count a (collect task_ip ts)
  unfolding ip_guard_drop
  drop_ip-count g ys ts = ground arith

  drop_cid-no_ip :
      (g : CidGuard) (ts : List Task)
      → count a (collect task_ip (cid_guard_drop g ++ ts)) ≡ count a (collect task_ip ts)
  unfolding cid_guard_drop
  drop_cid-no_ip g ts = ground arith

  drop_resource-no_ip :
      (g : ResourceGuard) (ts : List Task)
      → count a (collect task_ip (resource_guard_drop g ++ ts)) ≡ count a (collect task_ip ts)
  unfolding resource_guard_drop
  drop_resource-no_ip g ts = ground arith

  new_ip-count :
      (m m' : ResourceManager) (g : IpGuard) (ys : List IpGuard)
      → ip_guard_new m ≡ (some g, m')
      → count a m'.free_ips + count a (collect guard_ip (g ∷ ys))
        ≡ count a m.free_ips + count a (collect guard_ip ys)
  unfolding ip_guard_new allocate_ip
  new_ip-count m m' g ys e = ground arith

  new_cid-free_ips :
      (m m' : ResourceManager) (g : CidGuard)
      → cid_guard_new m ≡ (some g, m')
      → m'.free_ips ≡ m.free_ips
  unfolding cid_guard_new allocate_cid
  new_cid-free_ips m m' g e = ground arith

  take_ip-count :
      (g : IpGuard) (b : ℕ) (ys : List IpGuard) (ts : List Task)
      → (ip_guard_take g).0 ≡ some b
      → count a (collect task_ip (ip_guard_drop (ip_guard_take g).1 ++ ts))
          + count a (collect guard_ip ys)
          + count a (b ∷ [])
        ≡ count a (collect guard_ip (g ∷ ys)) + count a (collect task_ip ts)
  unfolding ip_guard_take ip_guard_drop
  take_ip-count g b ys ts h = ground arith

  run_task-count_ip :
      (task : Task) (m : ResourceManager) (ys : List Task)
      → count a (run_task task m).free_ips + count a (collect task_ip ys)
        ≡ count a m.free_ips + count a (collect task_ip (task ∷ ys))
  unfolding run_task release_ip release_cid
  run_task-count_ip (Task.task_release_ip b) m ys =
      ground (arith, count-append a m.free_ips (b ∷ []))
  run_task-count_ip (Task.task_release_cid b) m ys = refl
  run_task-count_ip (Task.task_release_job b) m ys = refl

pub Step-ip_count : {s t : System} (a : ℕ) → Step s t → ip_count a t ≡ ip_count a s
Step-ip_count {s} a (Step.new_ip g m e u) =
    rw u (omega (arith, new_ip-count a s.manager m g s.ip_guards e))
Step-ip_count {s} a (Step.drop_ip xs ys g e u) = rw u (
    omega (
      arith,
      ap (λ (l : List IpGuard). count a (collect guard_ip l)) e,
      count-collect guard_ip a xs (g ∷ ys),
      count-collect guard_ip a xs ys,
      drop_ip-count a g ys s.tasks,
    ))
Step-ip_count {s} a (Step.take_ip xs ys g b e h u) = rw u (
    ground (
      arith,
      ap (λ (l : List IpGuard). count a (collect guard_ip l)) e,
      count-collect guard_ip a xs (g ∷ ys),
      count-collect guard_ip a xs ys,
      take_ip-count a g b ys s.tasks h,
    ))
Step-ip_count {s} a (Step.new_cid g m e u) =
    rw u (omega (arith, ap (count a) (new_cid-free_ips a s.manager m g e)))
Step-ip_count {s} a (Step.drop_cid xs ys g e u) = rw u (omega (arith, drop_cid-no_ip a g s.tasks))
Step-ip_count {s} a (Step.new_resource id job_id vm vm' r f e u) = rw u refl
Step-ip_count {s} a (Step.drop_resource xs ys g e u) =
    rw u (omega (arith, drop_resource-no_ip a g s.tasks))
Step-ip_count {s} a (Step.take_resource xs ys g id vm e h u) =
    rw u (omega (arith, drop_resource-no_ip a (resource_guard_take g).1 s.tasks))
Step-ip_count {s} a (Step.run xs ys task e u) = rw u (
    omega (
      arith,
      ap (λ (l : List Task). count a (collect task_ip l)) e,
      count-collect task_ip a xs (task ∷ ys),
      count-collect task_ip a xs ys,
      run_task-count_ip a task s.manager ys,
    ))
