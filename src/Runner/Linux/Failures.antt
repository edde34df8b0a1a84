-- ===== src/Runner/Linux/Failures.antt =====
-- runner/src/vm_impl/linux.rs, `new`: the guards that a new machine holds, and what a failure leaves.
use cloud_devenv_sh.Base.{
  List, ◌∷◌, none, some, ℕ, ◌≡◌, Option, refl, Option-cases, ap, inl, inr, Bool-cases,
}
use cloud_devenv_sh.Runner.Linux.{
  Host, LinuxVm, new_vm, prepare, Machines, new_held, new_with_ip, new_with_resources,
  hold_resource, vm_config_ch,
}
use cloud_devenv_sh.Protocol.{Vm}
use cloud_devenv_sh.Runner.Resources.Guards.{
  ResourceGuard, System, IpGuard, cid_guard_new, ip_guard_new, CidGuard, resource_guard_new,
}
use cloud_devenv_sh.Runner.Resources.{allocate_resources, Allocation}
use cloud_devenv_sh.Runner.Linux.Guarded.{allocation-cases}

-- The guards of a machine that was made stand first among the guards; a machine that was not made has
-- left none.
abbrev pub Guarded : Option LinuxVm → System → System → Type 0
Guarded none before after =
    (after.resource_guards ≡ before.resource_guards)
    × (after.ip_guards ≡ before.ip_guards)
    × (after.cid_guards ≡ before.cid_guards)
Guarded (some vm) before after =
    (after.resource_guards ≡ vm.resource_guard ∷ before.resource_guards)
    × (after.ip_guards ≡ vm.ip_guard ∷ before.ip_guards)
    × (after.cid_guards ≡ vm.cid_guard ∷ before.cid_guards)

module _ (h : Host) (vm : Vm) (id : ℕ) (g : ResourceGuard) where
  new_with_ip-Guarded :
      (ip : IpGuard) (guest_ip : ℕ) (before s : System)
      → s.resource_guards ≡ g ∷ before.resource_guards
      → s.ip_guards ≡ ip ∷ before.ip_guards
      → s.cid_guards ≡ before.cid_guards
      → Guarded
          (new_with_ip h vm id g ip guest_ip before s).1
          before
          (new_with_ip h vm id g ip guest_ip before s).0
  unfolding new_with_ip
  new_with_ip-Guarded ip guest_ip before s hg hi hc =
      elim (Option-cases (cid_guard_new s.manager).0) [
        | inl e ↦ rw (new_with_ip, e) (refl, refl, hc)
        | inr (held, e) ↦ elim (Option-cases held.cid) [
          | inl missing ↦ rw (new_with_ip, e, missing) (refl, refl, refl)
          | inr (cid, found) ↦ elim (Bool-cases (h.create_vm (vm_config_ch vm guest_ip cid))) [
            | inl made ↦
                rw (new_with_ip, e, found, made) (hg, hi, ap (λ (cs : List CidGuard). held ∷ cs) hc)
            | inr failed ↦ rw (new_with_ip, e, found, failed) (refl, refl, refl)
          ]
        ]
      ]

  new_with_resources-Guarded :
      (before s : System)
      → s.resource_guards ≡ g ∷ before.resource_guards
      → s.ip_guards ≡ before.ip_guards
      → s.cid_guards ≡ before.cid_guards
      → Guarded
          (new_with_resources h vm id g before s).1
          before
          (new_with_resources h vm id g before s).0
  unfolding new_with_resources
  new_with_resources-Guarded before s hg hi hc = elim (Option-cases (ip_guard_new s.manager).0) [
    | inl refused ↦ rw (new_with_resources, refused) (refl, hi, hc)
    | inr (ip, made) ↦ elim (Option-cases ip.ip) [
      | inl missing ↦ rw (new_with_resources, made, missing) (refl, refl, hc)
      | inr (guest_ip, found) ↦
          rw (new_with_resources, made, found)
            (new_with_ip-Guarded ip guest_ip before
              (record s { manager = (ip_guard_new s.manager).1; ip_guards = ip ∷ s.ip_guards }) hg
              (ap (λ (is : List IpGuard). ip ∷ is) hi) hc)
    ]
  ]

  new_held-Guarded :
      (before s : System)
      → s.resource_guards ≡ g ∷ before.resource_guards
      → s.ip_guards ≡ before.ip_guards
      → s.cid_guards ≡ before.cid_guards
      → Guarded (new_held h vm id g before s).1 before (new_held h vm id g before s).0
  unfolding new_held
  new_held-Guarded before s hg hi hc = elim (Bool-cases (prepare h id).0) [
    | inr e ↦ rw (new_held, e) (refl, hi, hc)
    | inl e ↦ rw (new_held, e) (new_with_resources-Guarded before s hg hi hc)
  ]

-- Of the guards of the system, a machine that `new` makes adds one of each kind, and holds those; where
-- `new` fails, at whatever call, it has dropped every guard that it took.
pub new_vm-Guarded :
    (h : Host) (id job_id : ℕ) (vm : Vm) (ms : Machines)
    → Guarded (new_vm h id job_id vm ms).1 ms.system (new_vm h id job_id vm ms).0.system
unfolding new_vm
new_vm-Guarded h id job_id vm ms = elim (Bool-cases h.tempdir) [
  | inr e ↦ rw (new_vm, e) (refl, refl, refl)
  | inl e ↦ elim (allocation-cases tried) [
    | inl (reason, refused) ↦ rw (new_vm, e, refused) (refl, refl, refl)
    | inr (a, jid, held, ok) ↦
        rw (new_vm, e, ok)
          (new_held-Guarded h vm id (resource_guard_new jid held) ms.system
            (hold_resource (resource_guard_new jid held) a ms.system) refl refl refl)
  ]
]
  where
    tried : Allocation
    tried = allocate_resources ms.system.manager.limits job_id vm ms.system.manager.allocation
