-- ===== src/Runner/Resources/Guards/Books.antt =====
-- runner/src/resource_manager.rs: the registered jobs, who is to release them, and what each step does
-- to the books.
use cloud_devenv_sh.Base.{
  ℕ, ◌+◌, ◌≡◌, ap, subst, sym, Option, none, some, ◌≢◌, ◌∙◌, List, [], ◌∷◌, ◌++◌, arith, count,
  collect, count-collect, Option-cases, inl, inr, Map,
}
use cloud_devenv_sh.Base.Maps.{
  get, insert, keys, count-keys-none, count-keys-some, count-keys-remove,
}
use cloud_devenv_sh.Protocol.{Vm}
use cloud_devenv_sh.Runner.Resources.{
  ResourceManager, ResourceState, ResourceLimits, Allocation, allocate_ip, release_ip, allocate_cid,
  release_cid, allocate_resources, release_job,
}
use cloud_devenv_sh.Runner.Resources.Accounting.{
  Inv, IsMachine, allocate_resources-Inv, release_job-Inv,
}
use cloud_devenv_sh.Runner.Resources.Guards.{
  Task, IpGuard, CidGuard, ResourceGuard, System, Step, run_task, ip_guard_new, ip_guard_take,
  ip_guard_drop, cid_guard_new, cid_guard_drop, resource_guard_new, resource_guard_take,
  resource_guard_drop,
}

abbrev pub task_job : Task → Option ℕ
task_job (Task.task_release_job a) = some a
task_job _ = none

abbrev pub guard_job : ResourceGuard → Option ℕ
guard_job g = g.job_id

abbrev pub owners : ℕ → System → ℕ
owners a s =
    count a (collect guard_job s.resource_guards)
    + count a (collect task_job s.tasks)
    + count a s.taken_jobs

pub record Kept (limits : ResourceLimits) (s : System) : Type 0 where
  pub limits_kept : s.manager.limits ≡ limits
  pub books : Inv limits s.manager.allocation
  pub owned : (a : ℕ) → count a (keys s.manager.allocation.jobs) ≡ owners a s

module _ (a : ℕ) where
  drop_resource-count :
      (g : ResourceGuard) (ys : List ResourceGuard) (ts : List Task)
      → count a (collect task_job (resource_guard_drop g ++ ts)) + count a (collect guard_job ys)
        ≡ count a (collect guard_job (g ∷ ys)) + count a (collect task_job ts)
  unfolding resource_guard_drop
  drop_resource-count g ys ts = ground arith

  take_resource-count :
      (g : ResourceGuard) (id : ℕ) (vm : Vm) (ys : List ResourceGuard) (ts : List Task)
      → (resource_guard_take g).0 ≡ some (id, vm)
      → count a (collect task_job (resource_guard_drop (resource_guard_take g).1 ++ ts))
          + count a (collect guard_job ys)
          + count a (id ∷ [])
        ≡ count a (collect guard_job (g ∷ ys)) + count a (collect task_job ts)
  unfolding resource_guard_take resource_guard_drop
  take_resource-count g id vm ys ts h = ground arith

  drop_ip-no_job :
      (g : IpGuard) (ts : List Task)
      → count a (collect task_job (ip_guard_drop g ++ ts)) ≡ count a (collect task_job ts)
  unfolding ip_guard_drop
  drop_ip-no_job g ts = ground arith

  drop_cid-no_job :
      (g : CidGuard) (ts : List Task)
      → count a (collect task_job (cid_guard_drop g ++ ts)) ≡ count a (collect task_job ts)
  unfolding cid_guard_drop
  drop_cid-no_job g ts = ground arith

new_ip-manager :
    (m m' : ResourceManager) (g : IpGuard)
    → ip_guard_new m ≡ (some g, m')
    → (m'.limits ≡ m.limits) × (m'.allocation ≡ m.allocation)
unfolding ip_guard_new allocate_ip
new_ip-manager m m' g e = ground arith

new_cid-manager :
    (m m' : ResourceManager) (g : CidGuard)
    → cid_guard_new m ≡ (some g, m')
    → (m'.limits ≡ m.limits) × (m'.allocation ≡ m.allocation)
unfolding cid_guard_new allocate_cid
new_cid-manager m m' g e = ground arith

allocated :
    (limits : ResourceLimits) (id job_id : ℕ) (vm vm' : Vm) (s a : ResourceState)
    → allocate_resources limits id vm s ≡ Allocation.ok a job_id vm'
    → (a.jobs ≡ insert id vm s.jobs) × (job_id ≡ id)
unfolding allocate_resources
allocated limits id job_id vm vm' s a e = ground arith

count-insert :
    (k a : ℕ) (v : Vm) (m : Map Vm)
    → get k m ≡ none
    → count a (keys (insert k v m)) ≡ count a (k ∷ []) + count a (keys m)
unfolding insert
count-insert k a v m fresh = ground (arith, count-keys-remove k a m, count-keys-none k m)

-- A job of a release task is registered, so the task takes it off the books once.
release-owned :
    (limits : ResourceLimits) (id a n : ℕ) (s : ResourceState)
    → Inv limits s
    → count id (keys s.jobs) ≢ 0
    → count a (keys s.jobs) ≡ n + count a (id ∷ [])
    → count a (keys (release_job id s).0.jobs) ≡ n
unfolding release_job
release-owned limits id a n s v held h = elim (Option-cases (get id s.jobs)) [
  | inl e ↦ absurd (held (count-keys-none id s.jobs e))
  | inr (vm, e) ↦
      rw (e, release_job)
        (ground (arith, count-keys-remove id a s.jobs, count-keys-some id vm s.jobs v.unique))
]

registered-Kept :
    (limits : ResourceLimits) (s : System) (id job_id : ℕ) (vm vm' : Vm) (a : ResourceState)
    → IsMachine limits
    → Kept limits s
    → get id s.manager.allocation.jobs ≡ none
    → allocate_resources s.manager.limits id vm s.manager.allocation ≡ Allocation.ok a job_id vm'
    → Kept limits (record s {
      manager = record s.manager { allocation = a };
      resource_guards = resource_guard_new job_id vm' ∷ s.resource_guards;
    })
unfolding resource_guard_new
registered-Kept limits s id job_id vm vm' a m k fresh e =
    let al = s.manager.allocation in
    let e' =
      subst (λ l. allocate_resources l id vm al ≡ Allocation.ok a job_id vm') k.limits_kept e in
    let parts = allocated limits id job_id vm vm' al a e' in
    record {
      limits_kept = k.limits_kept;
      books = rw e' at (allocate_resources-Inv limits id vm al m k.books fresh);
      owned = λ b. ground (
        arith,
        k.owned b,
        parts.1,
        ap (λ (j : Map Vm). count b (keys j)) parts.0,
        count-insert id b vm al.jobs fresh,
      );
    }

pub Step-Kept :
    {limits : ResourceLimits} {s t : System}
    → IsMachine limits
    → Kept limits s
    → Step s t
    → Kept limits t
unfolding run_task release_ip release_cid
Step-Kept {limits} {s} m k (Step.new_ip g m' e u) =
    let parts = new_ip-manager s.manager m' g e in
    rw u (record {
      limits_kept = parts.0 ∙ k.limits_kept;
      books = subst (Inv limits) (sym parts.1) k.books;
      owned = λ a. ap (λ (r : ResourceState). count a (keys r.jobs)) parts.1 ∙ k.owned a;
    })
Step-Kept {limits} {s} m k (Step.drop_ip xs ys g e u) = rw u (record {
  limits_kept = k.limits_kept;
  books = k.books;
  owned = λ a. omega (arith, k.owned a, drop_ip-no_job a g s.tasks);
})
Step-Kept {limits} {s} m k (Step.take_ip xs ys g b e h u) = rw u (record {
  limits_kept = k.limits_kept;
  books = k.books;
  owned = λ a. omega (arith, k.owned a, drop_ip-no_job a (ip_guard_take g).1 s.tasks);
})
Step-Kept {limits} {s} m k (Step.new_cid g m' e u) =
    let parts = new_cid-manager s.manager m' g e in
    rw u (record {
      limits_kept = parts.0 ∙ k.limits_kept;
      books = subst (Inv limits) (sym parts.1) k.books;
      owned = λ a. ap (λ (r : ResourceState). count a (keys r.jobs)) parts.1 ∙ k.owned a;
    })
Step-Kept {limits} {s} m k (Step.drop_cid xs ys g e u) = rw u (record {
  limits_kept = k.limits_kept;
  books = k.books;
  owned = λ a. omega (arith, k.owned a, drop_cid-no_job a g s.tasks);
})
Step-Kept {limits} {s} m k (Step.new_resource id job_id vm vm' r f e u) =
    rw u (registered-Kept limits s id job_id vm vm' r m k f e)
Step-Kept {limits} {s} m k (Step.drop_resource xs ys g e u) = rw u (record {
  limits_kept = k.limits_kept;
  books = k.books;
  owned = λ a. omega (
    arith,
    k.owned a,
    ap (λ (l : List ResourceGuard). count a (collect guard_job l)) e,
    count-collect guard_job a xs (g ∷ ys),
    count-collect guard_job a xs ys,
    drop_resource-count a g ys s.tasks,
  );
})
Step-Kept {limits} {s} m k (Step.take_resource xs ys g id vm e h u) = rw u (record {
  limits_kept = k.limits_kept;
  books = k.books;
  owned = λ a. ground (
    arith,
    k.owned a,
    ap (λ (l : List ResourceGuard). count a (collect guard_job l)) e,
    count-collect guard_job a xs (g ∷ ys),
    count-collect guard_job a xs ys,
    take_resource-count a g id vm ys s.tasks h,
  );
})
Step-Kept {limits} {s} m k (Step.run xs ys (Task.task_release_ip b) e u) = rw u (record {
  limits_kept = k.limits_kept;
  books = k.books;
  owned = λ a. omega (
    arith,
    k.owned a,
    ap (λ (l : List Task). count a (collect task_job l)) e,
    count-collect task_job a xs (Task.task_release_ip b ∷ ys),
    count-collect task_job a xs ys,
  );
})
Step-Kept {limits} {s} m k (Step.run xs ys (Task.task_release_cid b) e u) = rw u (record {
  limits_kept = k.limits_kept;
  books = k.books;
  owned = λ a. omega (
    arith,
    k.owned a,
    ap (λ (l : List Task). count a (collect task_job l)) e,
    count-collect task_job a xs (Task.task_release_cid b ∷ ys),
    count-collect task_job a xs ys,
  );
})
Step-Kept {limits} {s} m k (Step.run xs ys (Task.task_release_job id) e u) = rw u (record {
  limits_kept = k.limits_kept;
  books = release_job-Inv limits id s.manager.allocation k.books;
  owned = λ a. released a;
})
  where
    split :
        (a : ℕ)
        → count a (collect task_job s.tasks)
          ≡ count a (collect task_job (xs ++ ys)) + count a (id ∷ [])
    split a = ground (
      arith,
      ap (λ (l : List Task). count a (collect task_job l)) e,
      count-collect task_job a xs (Task.task_release_job id ∷ ys),
      count-collect task_job a xs ys,
    )

    held : count id (keys s.manager.allocation.jobs) ≢ 0
    held h = ground (arith, split id, k.owned id)

    released :
        (a : ℕ)
        → count a (keys (release_job id s.manager.allocation).0.jobs)
          ≡ count a (collect guard_job s.resource_guards)
            + count a (collect task_job (xs ++ ys))
            + count a s.taken_jobs
    released a =
        release-owned limits id a _ s.manager.allocation k.books held
          (omega (arith, k.owned a, split a))
