-- ===== src/Runner/Linux/Guarded.antt =====
-- runner/src/vm_impl/linux.rs, `new`, over the steps of the guards of runner/src/resource_manager.rs.
use cloud_devenv_sh.Base.{
  List, ◌∷◌, none, some, ℕ, ◌≡◌, Option, refl, arith, [], Option-cases, ap, inl, inr, Bool-cases,
  ◌⊎◌,
}
use cloud_devenv_sh.Runner.Linux.{
  drop_last_resource, drop_last_cid, drop_last_ip, new_with_ip, Host, new_held, new_vm,
  new_with_resources, prepare, Machines, hold_resource, vm_config_ch,
}
use cloud_devenv_sh.Runner.Resources.Guards.{
  System, cid_guard_new, ip_guard_new, CidGuard, IpGuard, ResourceGuard, Step, Reach,
  resource_guard_new,
}
use cloud_devenv_sh.Runner.Resources.{
  allocate_cid, allocate_ip, ResourceManager, Allocation, RejectionReason, ResourceState,
  allocate_resources,
}
use cloud_devenv_sh.Protocol.{Vm}
use cloud_devenv_sh.Base.Maps.{get}

-- Dropping the guard that stands first is a step.
drop_last_resource-Reach :
    {s₀ s : System} (g : ResourceGuard) (rest : List ResourceGuard)
    → Reach s₀ s
    → s.resource_guards ≡ g ∷ rest
    → Reach s₀ (drop_last_resource g rest s)
drop_last_resource-Reach g rest r h = Reach.next r (Step.drop_resource [] rest g h refl)

drop_last_ip-Reach :
    {s₀ s : System} (g : IpGuard) (rest : List IpGuard)
    → Reach s₀ s
    → s.ip_guards ≡ g ∷ rest
    → Reach s₀ (drop_last_ip g rest s)
drop_last_ip-Reach g rest r h = Reach.next r (Step.drop_ip [] rest g h refl)

drop_last_cid-Reach :
    {s₀ s : System} (g : CidGuard) (rest : List CidGuard)
    → Reach s₀ s
    → s.cid_guards ≡ g ∷ rest
    → Reach s₀ (drop_last_cid g rest s)
drop_last_cid-Reach g rest r h = Reach.next r (Step.drop_cid [] rest g h refl)

refused_cid : (m : ResourceManager) → (cid_guard_new m).0 ≡ none → (cid_guard_new m).1 ≡ m
unfolding cid_guard_new allocate_cid
refused_cid m h = ground arith

refused_ip : (m : ResourceManager) → (ip_guard_new m).0 ≡ none → (ip_guard_new m).1 ≡ m
unfolding ip_guard_new allocate_ip
refused_ip m h = ground arith

-- What a guard is made of, when there is one.
made_cid :
    (m : ResourceManager) (g : CidGuard)
    → (cid_guard_new m).0 ≡ some g
    → cid_guard_new m ≡ (some g, (cid_guard_new m).1)
made_cid m g h = ap (λ (o : Option CidGuard). (o, (cid_guard_new m).1)) h

made_ip :
    (m : ResourceManager) (g : IpGuard)
    → (ip_guard_new m).0 ≡ some g
    → ip_guard_new m ≡ (some g, (ip_guard_new m).1)
made_ip m g h = ap (λ (o : Option IpGuard). (o, (ip_guard_new m).1)) h

module _ {s₀ : System} (h : Host) (vm : Vm) (id : ℕ) (g : ResourceGuard) where
  new_with_ip-Reach :
      (ip : IpGuard) (guest_ip : ℕ) (before s : System)
      → Reach s₀ s
      → s.resource_guards ≡ g ∷ before.resource_guards
      → s.ip_guards ≡ ip ∷ before.ip_guards
      → s.cid_guards ≡ before.cid_guards
      → Reach s₀ (new_with_ip h vm id g ip guest_ip before s).0
  unfolding new_with_ip
  new_with_ip-Reach ip guest_ip before s r hg hi hc =
      elim (Option-cases (cid_guard_new s.manager).0) [
        | inl e ↦
            rw (new_with_ip, e, refused_cid s.manager e)
              (drop_last_resource-Reach g before.resource_guards
                (drop_last_ip-Reach ip before.ip_guards r hi) hg)
        | inr (held, e) ↦ elim (Option-cases held.cid) [
          | inl missing ↦ rw (new_with_ip, e, missing) (gone held e)
          | inr (cid, found) ↦ elim (Bool-cases (h.create_vm (vm_config_ch vm guest_ip cid))) [
            | inl made ↦ rw (new_with_ip, e, found, made) (with_cid held e)
            | inr failed ↦ rw (new_with_ip, e, found, failed) (gone held e)
          ]
        ]
      ]
    where
      taken : CidGuard → System
      taken held = record s {
        manager = (cid_guard_new s.manager).1;
        cid_guards = held ∷ s.cid_guards;
      }

      with_cid : (held : CidGuard) → (cid_guard_new s.manager).0 ≡ some held → Reach s₀ (taken held)
      with_cid held e =
          Reach.next r
            (Step.new_cid held (cid_guard_new s.manager).1 (made_cid s.manager held e) refl)

      gone :
          (held : CidGuard)
          → (cid_guard_new s.manager).0 ≡ some held
          → Reach s₀ (
              drop_last_resource g before.resource_guards (
                drop_last_ip ip before.ip_guards
                  (drop_last_cid held before.cid_guards (taken held))))
      gone held e =
          drop_last_resource-Reach g before.resource_guards
            (drop_last_ip-Reach ip before.ip_guards
              (drop_last_cid-Reach held before.cid_guards (with_cid held e)
                (ap (λ (cs : List CidGuard). held ∷ cs) hc))
              hi)
            hg

  new_with_resources-Reach :
      (before s : System)
      → Reach s₀ s
      → s.resource_guards ≡ g ∷ before.resource_guards
      → s.ip_guards ≡ before.ip_guards
      → s.cid_guards ≡ before.cid_guards
      → Reach s₀ (new_with_resources h vm id g before s).0
  unfolding new_with_resources
  new_with_resources-Reach before s r hg hi hc = elim (Option-cases (ip_guard_new s.manager).0) [
    | inl e ↦
        rw (new_with_resources, e, refused_ip s.manager e)
          (drop_last_resource-Reach g before.resource_guards r hg)
    | inr (ip, e) ↦ elim (Option-cases ip.ip) [
      | inl missing ↦
          rw (new_with_resources, e, missing)
            (drop_last_resource-Reach g before.resource_guards
              (drop_last_ip-Reach ip before.ip_guards (with_ip ip e)
                (ap (λ (is : List IpGuard). ip ∷ is) hi))
              hg)
      | inr (guest_ip, found) ↦
          rw (new_with_resources, e, found)
            (new_with_ip-Reach ip guest_ip before (taken ip) (with_ip ip e) hg
              (ap (λ (is : List IpGuard). ip ∷ is) hi) hc)
    ]
  ]
    where
      taken : IpGuard → System
      taken ip = record s { manager = (ip_guard_new s.manager).1; ip_guards = ip ∷ s.ip_guards }

      with_ip : (ip : IpGuard) → (ip_guard_new s.manager).0 ≡ some ip → Reach s₀ (taken ip)
      with_ip ip e =
          Reach.next r (Step.new_ip ip (ip_guard_new s.manager).1 (made_ip s.manager ip e) refl)

  new_held-Reach :
      (before s : System)
      → Reach s₀ s
      → s.resource_guards ≡ g ∷ before.resource_guards
      → s.ip_guards ≡ before.ip_guards
      → s.cid_guards ≡ before.cid_guards
      → Reach s₀ (new_held h vm id g before s).0
  unfolding new_held
  new_held-Reach before s r hg hi hc = elim (Bool-cases (prepare h id).0) [
    | inl e ↦ rw (new_held, e) (new_with_resources-Reach before s r hg hi hc)
    | inr e ↦ rw (new_held, e) (drop_last_resource-Reach g before.resource_guards r hg)
  ]

pub allocation-cases :
    (a : Allocation)
    → ((reason : RejectionReason) × (a ≡ Allocation.err reason))
      ⊎ ((s : ResourceState) × (jid : ℕ) × (vm : Vm) × (a ≡ Allocation.ok s jid vm))
allocation-cases (Allocation.err reason) = inl (reason, refl)
allocation-cases (Allocation.ok s jid vm) = inr (s, jid, vm, refl)

-- `new` does nothing to the resources but what the guards allow: however it ends, the system that it
-- leaves is one that the steps of the guards reach from the one it found, where the id that it draws
-- for its resources is fresh.
pub new_vm-Reach :
    (h : Host) (id job_id : ℕ) (vm : Vm) (ms : Machines)
    → get job_id ms.system.manager.allocation.jobs ≡ none
    → Reach ms.system (new_vm h id job_id vm ms).0.system
unfolding new_vm
new_vm-Reach h id job_id vm ms fresh = elim (Bool-cases h.tempdir) [
  | inr e ↦ rw (new_vm, e) Reach.here
  | inl e ↦ elim (allocation-cases tried) [
    | inl (reason, refused) ↦ rw (new_vm, e, refused) Reach.here
    | inr (a, jid, held, ok) ↦
        rw (new_vm, e, ok)
          (new_held-Reach h vm id (resource_guard_new jid held) ms.system
            (hold_resource (resource_guard_new jid held) a ms.system)
            (Reach.next Reach.here (Step.new_resource job_id jid vm held a fresh ok refl)) refl refl
            refl)
  ]
]
  where
    tried : Allocation
    tried = allocate_resources ms.system.manager.limits job_id vm ms.system.manager.allocation
