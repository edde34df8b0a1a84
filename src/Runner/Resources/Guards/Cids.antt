-- ===== src/Runner/Resources/Guards/Cids.antt =====
-- runner/src/resource_manager.rs: how often a context id stands in a system, and what each step does to
-- that number.
use cloud_devenv_sh.Base.{
  ℕ, ◌+◌, ◌≡◌, refl, ap, Option, none, some, List, [], ◌∷◌, ◌++◌, arith, count, collect,
  count-append, count-collect,
}
use cloud_devenv_sh.Runner.Resources.{
  ResourceManager, allocate_ip, release_ip, allocate_cid, release_cid,
}
use cloud_devenv_sh.Runner.Resources.Guards.{
  Task, IpGuard, CidGuard, ResourceGuard, System, Step, run_task, ip_guard_new, ip_guard_take,
  ip_guard_drop, cid_guard_new, cid_guard_drop, resource_guard_take, resource_guard_drop,
}

abbrev pub task_cid : Task → Option ℕ
task_cid (Task.task_release_cid a) = some a
task_cid _ = none

abbrev pub guard_cid : CidGuard → Option ℕ
guard_cid g = g.cid

abbrev pub cid_count : ℕ → System → ℕ
cid_count a s =
    count a s.manager.free_cids
    + count a (collect guard_cid s.cid_guards)
    + count a (collect task_cid s.tasks)

module _ (a : ℕ) where
  drop_cid-count :
      (g : CidGuard) (ys : List CidGuard) (ts : List Task)
      → count a (collect task_cid (cid_guard_drop g ++ ts)) + count a (collect guard_cid ys)
        ≡ count a (collect guard_cid (g ∷ ys)) + count a (collect task_cid ts)
  unfolding cid_guard_drop
  drop_cid-count g ys ts = ground arith

  drop_ip-no_cid :
      (g : IpGuard) (ts : List Task)
      → count a (collect task_cid (ip_guard_drop g ++ ts)) ≡ count a (collect task_cid ts)
  unfolding ip_guard_drop
  drop_ip-no_cid g ts = ground arith

  drop_resource-no_cid :
      (g : ResourceGuard) (ts : List Task)
      → count a (collect task_cid (resource_guard_drop g ++ ts)) ≡ count a (collect task_cid ts)
  unfolding resource_guard_drop
  drop_resource-no_cid g ts = ground arith

  new_cid-count :
      (m m' : ResourceManager) (g : CidGuard) (ys : List CidGuard)
      → cid_guard_new m ≡ (some g, m')
      → count a m'.free_cids + count a (collect guard_cid (g ∷ ys))
        ≡ count a m.free_cids + count a (collect guard_cid ys)
  unfolding cid_guard_new allocate_cid
  new_cid-count m m' g ys e = ground arith

  new_ip-free_cids :
      (m m' : ResourceManager) (g : IpGuard)
      → ip_guard_new m ≡ (some g, m')
      → count a m'.free_cids ≡ count a m.free_cids
  unfolding ip_guard_new allocate_ip
  new_ip-free_cids m m' g e = ground arith

  run_task-count_cid :
      (task : Task) (m : ResourceManager) (ys : List Task)
      → count a (run_task task m).free_cids + count a (collect task_cid ys)
        ≡ count a m.free_cids + count a (collect task_cid (task ∷ ys))
  unfolding run_task release_ip release_cid
  run_task-count_cid (Task.task_release_cid b) m ys =
      ground (arith, count-append a m.free_cids (b ∷ []))
  run_task-count_cid (Task.task_release_ip b) m ys = refl
  run_task-count_cid (Task.task_release_job b) m ys = refl

pub Step-cid_count : {s t : System} (a : ℕ) → Step s t → cid_count a t ≡ cid_count a s
Step-cid_count {s} a (Step.new_ip g m e u) =
    rw u (omega (arith, new_ip-free_cids a s.manager m g e))
Step-cid_count {s} a (Step.drop_ip xs ys g e u) = rw u (omega (arith, drop_ip-no_cid a g s.tasks))
Step-cid_count {s} a (Step.take_ip xs ys g b e h u) =
    rw u (omega (arith, drop_ip-no_cid a (ip_guard_take g).1 s.tasks))
Step-cid_count {s} a (Step.new_cid g m e u) =
    rw u (omega (arith, new_cid-count a s.manager m g s.cid_guards e))
Step-cid_count {s} a (Step.drop_cid xs ys g e u) = rw u (
    omega (
      arith,
      ap (λ (l : List CidGuard). count a (collect guard_cid l)) e,
      count-collect guard_cid a xs (g ∷ ys),
      count-collect guard_cid a xs ys,
      drop_cid-count a g ys s.tasks,
    ))
Step-cid_count {s} a (Step.new_resource id job_id vm vm' r f e u) = rw u refl
Step-cid_count {s} a (Step.drop_resource xs ys g e u) =
    rw u (omega (arith, drop_resource-no_cid a g s.tasks))
Step-cid_count {s} a (Step.take_resource xs ys g id vm e h u) =
    rw u (omega (arith, drop_resource-no_cid a (resource_guard_take g).1 s.tasks))
Step-cid_count {s} a (Step.run xs ys task e u) = rw u (
    omega (
      arith,
      ap (λ (l : List Task). count a (collect task_cid l)) e,
      count-collect task_cid a xs (task ∷ ys),
      count-collect task_cid a xs ys,
      run_task-count_cid a task s.manager ys,
    ))
