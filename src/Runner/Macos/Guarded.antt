-- ===== src/Runner/Macos/Guarded.antt =====
-- runner/src/vm_impl/macos.rs, `new`: the guard of a machine, over the steps of the guards of
-- runner/src/resource_manager.rs.
use cloud_devenv_sh.Runner.Macos.{Made, keep_or_drop, new_held, new_vm, Framework, MacosVm}
use cloud_devenv_sh.Runner.Resources.Guards.{Step, Reach, System, ResourceGuard, resource_guard_new}
use cloud_devenv_sh.Base.{
  ◌≡◌, ℕ, ◌∷◌, ◌⊎◌, inl, ◌∙◌, ap, arith, inr, none, refl, sym, Bool-cases, [],
}
use cloud_devenv_sh.Protocol.{Vm}
use cloud_devenv_sh.Base.Maps.{get}
use cloud_devenv_sh.Runner.Resources.{Allocation, allocate_resources}
use cloud_devenv_sh.Runner.Linux.Guarded.{allocation-cases}
use cloud_devenv_sh.Runner.Linux.{hold_resource}

-- A machine that was made holds the guard that stands first; else every guard is as before.
abbrev pub Holds : Made → System → System → Type 0
Holds (Made.made vm) before after =
    after.resource_guards ≡ vm.resource_guard ∷ before.resource_guards
Holds Made.failed before after = after.resource_guards ≡ before.resource_guards
Holds Made.panicked before after = after.resource_guards ≡ before.resource_guards

-- The addresses and the context ids, which only a machine on Linux takes.
abbrev pub SameNetwork : System → System → Type 0
SameNetwork before after =
    (after.ip_guards ≡ before.ip_guards)
    × (after.cid_guards ≡ before.cid_guards)
    × (after.manager.free_ips ≡ before.manager.free_ips)
    × (after.manager.free_cids ≡ before.manager.free_cids)

-- `new` is nothing to the resources but steps of the guards.
abbrev pub NewVm : System → System × Made → Type 0
NewVm before (after, vm) = Reach before after × Holds vm before after × SameNetwork before after

made-cases :
    (m : Made) → ((vm : MacosVm) × (m ≡ Made.made vm)) ⊎ ((m ≡ Made.failed) ⊎ (m ≡ Made.panicked))
made-cases (Made.made vm) = inl (vm, refl)
made-cases Made.failed = inr (inl refl)
made-cases Made.panicked = inr (inr refl)

new_held-guard :
    (f : Framework) (id : ℕ) (vm : Vm) (g : ResourceGuard) (vm' : MacosVm)
    → new_held f id vm g ≡ Made.made vm'
    → vm'.resource_guard ≡ g
unfolding new_held
new_held-guard f id vm g vm' e = ground (arith, e)

keep_or_drop-NewVm :
    (m : Made) (g : ResourceGuard) (before s : System)
    → Reach before s
    → s.resource_guards ≡ g ∷ before.resource_guards
    → SameNetwork before s
    → ((vm : MacosVm) → m ≡ Made.made vm → vm.resource_guard ≡ g)
    → NewVm before (keep_or_drop m g before s, m)
unfolding keep_or_drop
keep_or_drop-NewVm (Made.made vm) g before s r h n e =
    (r, h ∙ ap (λ (k : ResourceGuard). k ∷ before.resource_guards) (sym (e vm refl)), n)
keep_or_drop-NewVm Made.failed g before s r h n e =
    (Reach.next r (Step.drop_resource [] before.resource_guards g h refl), refl, n)
keep_or_drop-NewVm Made.panicked g before s r h n e =
    (Reach.next r (Step.drop_resource [] before.resource_guards g h refl), refl, n)

-- However `new` ends, by an error or a panic too, the system that it leaves is one that the steps of the
-- guards reach from the one it found, where the id that it draws for its resources is fresh; a machine
-- that is made holds the one guard that is added, else none is; and no address or context id is taken.
pub new_vm-NewVm :
    (f : Framework) (id job_id : ℕ) (vm : Vm) (s : System)
    → get job_id s.manager.allocation.jobs ≡ none
    → NewVm s (new_vm f id job_id vm s)
unfolding new_vm
new_vm-NewVm f id job_id vm s fresh = elim (Bool-cases f.tempdir) [
  | inr e ↦ rw (new_vm, e) (Reach.here, refl, (refl, refl, refl, refl))
  | inl e ↦ elim (allocation-cases tried) [
    | inl (reason, refused) ↦ rw (new_vm, e, refused) (Reach.here, refl, (refl, refl, refl, refl))
    | inr (a, jid, held, ok) ↦
        rw (new_vm, e, ok)
          (keep_or_drop-NewVm (new_held f id vm (resource_guard_new jid held))
            (resource_guard_new jid held) s (hold_resource (resource_guard_new jid held) a s)
            (Reach.next Reach.here (Step.new_resource job_id jid vm held a fresh ok refl)) refl
            (refl, refl, refl, refl) (new_held-guard f id vm (resource_guard_new jid held)))
  ]
]
  where
    tried : Allocation
    tried = allocate_resources s.manager.limits job_id vm s.manager.allocation
