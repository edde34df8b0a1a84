-- ===== src/Runner/Resources/Guards/Instances.antt =====
-- runner/src/resource_manager.rs: how many machines a runner on macOS has at a time.
use cloud_devenv_sh.Runner.Resources.Guards.{start, System, Reach}
use cloud_devenv_sh.Base.{
  ◌⊎◌, inl, inr, Bool-cases, false, Map, List, length, ℕ, ◌≤◌, ◌≡◌, [], ◌∷◌, arith, refl, sym, ◌∙◌,
  ap, count,
}
use cloud_devenv_sh.Runner.Resources.Platforms.{with_platform_defaults}
use cloud_devenv_sh.Protocol.{Vm, Platform}
use cloud_devenv_sh.Runner.Resources.Accounting.{IsMachine}
use cloud_devenv_sh.Runner.Resources.{can_allocate, ResourceLimits}
use cloud_devenv_sh.Runner.Resources.Guards.Books.{owners}
use cloud_devenv_sh.Runner.Resources.Guards.NoLeak.{books_kept}
use cloud_devenv_sh.Runner.Resources.Refusals.{can_allocate_exact}
use cloud_devenv_sh.Base.Maps.{keys}

no_jobs : (m : Map Vm) → length m ≤ 0 → m ≡ []
no_jobs [] h = refl
no_jobs (e ∷ m) h = absurd (omega (arith, h))

-- With the defaults of macOS at most one job has resources, and while one has them, or while its guard
-- or the task that releases them is still there, no machine of any size is accepted: this holds in
-- whatever order the guards and the tasks of the runner take their steps.
pub one_machine :
    (cpus : List ℕ) (total_memory cpu_count memory_mb : ℕ) {s : System}
    → IsMachine (with_platform_defaults Platform.aarch64_darwin cpus total_memory)
    → Reach (start (with_platform_defaults Platform.aarch64_darwin cpus total_memory)) s
    → (length s.manager.allocation.jobs ≤ 1)
      × (((s.manager.allocation.jobs ≡ []) × ((a : ℕ) → owners a s ≡ 0))
          ⊎ (can_allocate
                (with_platform_defaults Platform.aarch64_darwin cpus total_memory)
                cpu_count
                memory_mb
                s.manager.allocation
              ≡ false))
unfolding with_platform_defaults
one_machine cpus total_memory cpu_count memory_mb {s} m r =
    let limits : ResourceLimits =
      with_platform_defaults Platform.aarch64_darwin cpus total_memory in
    let (books, owned) = books_kept limits m r in
    (
      books.instances_fit,
      elim (Bool-cases (can_allocate limits cpu_count memory_mb s.manager.allocation)) [
        | inr e ↦ inr e
        | inl h ↦
            let e : s.manager.allocation.jobs ≡ [] = no_jobs s.manager.allocation.jobs (
              omega (
                arith,
                ((can_allocate_exact limits s.manager.allocation cpu_count memory_mb m books).0
                    h).0,
              )) in
            inl (e, λ a. sym (owned a) ∙ ap (λ (jobs : Map Vm). count a (keys jobs)) e)
      ],
    )
