-- ===== src/Runner/Linux/Ends.antt =====
-- runner/src/vm_impl/linux.rs, `drop` of a machine that `new` has made.
use cloud_devenv_sh.Base.{
  List, ◌∷◌, some, ℕ, ◌≡◌, refl, arith, [], All, true, ◌==◌, false, ap, filterb, not, ==_refl, ◌∙◌,
  Bool-cases, inl, inr, ◌++◌,
}
use cloud_devenv_sh.Runner.Linux.{
  Cleanup, Machines, Process, drop_vm, end_process, new_vm, kill_processes, new_held, Host, prepare,
  is_process, LinuxVm, hold_resource,
}
use cloud_devenv_sh.Protocol.{Vm}
use cloud_devenv_sh.Runner.Resources.{Allocation, allocate_resources, RejectionReason}
use cloud_devenv_sh.Runner.Resources.Guards.{ResourceGuard, System, resource_guard_new}
use cloud_devenv_sh.Runner.Linux.Guarded.{allocation-cases}

-- No process and no directory is the machine's.
abbrev pub IsFresh : ℕ → Machines → Type 0
IsFresh id ms =
    All (λ (q : ℕ × Process). (q.0 == id) ≡ false) ms.processes
    × All (λ (d : ℕ). (d == id) ≡ false) ms.rootfs_dirs

abbrev pub all_done : Cleanup
all_done = record { kills_hypervisor = true; kills_virtiofsd = true; removes_rootfs = true }

no_process :
    (id : ℕ) (p : Process) (q : ℕ × Process) → (q.0 == id) ≡ false → is_process id p q ≡ false
no_process id Process.virtiofsd (j, Process.virtiofsd) h = h
no_process id Process.virtiofsd (j, Process.cloud_hypervisor) h = refl
no_process id Process.cloud_hypervisor (j, Process.virtiofsd) h = refl
no_process id Process.cloud_hypervisor (j, Process.cloud_hypervisor) h = h

end_process-fresh :
    (id : ℕ) (p : Process) (ps : List (ℕ × Process))
    → All (λ (q : ℕ × Process). (q.0 == id) ≡ false) ps
    → end_process id p ps ≡ ps
unfolding end_process
end_process-fresh id p [] h = refl
end_process-fresh id p (q ∷ ps) h =
    rw (no_process id p q h.0)
      (ap (λ (r : List (ℕ × Process)). q ∷ r) (end_process-fresh id p ps h.1))

end_own :
    (id : ℕ) (p : Process) (ps : List (ℕ × Process))
    → end_process id p ((id, p) ∷ ps) ≡ end_process id p ps
unfolding end_process
end_own id Process.virtiofsd ps = rw (==_refl id) refl
end_own id Process.cloud_hypervisor ps = rw (==_refl id) refl

dirs-fresh :
    (id : ℕ) (ds : List ℕ)
    → All (λ (d : ℕ). (d == id) ≡ false) ds
    → filterb (λ (d : ℕ). not (d == id)) ds ≡ ds
dirs-fresh id [] h = refl
dirs-fresh id (d ∷ ds) h = rw h.0 (ap (λ (r : List ℕ). d ∷ r) (dirs-fresh id ds h.1))

ready :
    (h : Host) (id : ℕ)
    → (prepare h id).0 ≡ true
    → ((prepare h id).1 ≡ (id, Process.cloud_hypervisor) ∷ (id, Process.virtiofsd) ∷ [])
      × ((prepare h id).2 ≡ id ∷ [])
unfolding prepare
ready h id e = ground (arith, e)

unready :
    (h : Host) (vm : Vm) (id : ℕ) (g : ResourceGuard) (before s : System) (v : LinuxVm)
    → (new_held h vm id g before s).1 ≡ some v
    → (prepare h id).0 ≡ true
unfolding new_held
unready h vm id g before s v e = elim (Bool-cases (prepare h id).0) [
  | inl y ↦ y
  | inr n ↦ elim (missing n) [ ]
]
  where
    missing : (prepare h id).0 ≡ false → ⊥
    missing n = ground (arith, n, e)

made_vm :
    (h : Host) (id job_id : ℕ) (vm : Vm) (ms : Machines) (v : LinuxVm)
    → (new_vm h id job_id vm ms).1 ≡ some v
    → ((new_vm h id job_id vm ms).0.processes
        ≡ (id, Process.cloud_hypervisor) ∷ (id, Process.virtiofsd) ∷ ms.processes)
      × ((new_vm h id job_id vm ms).0.rootfs_dirs ≡ id ∷ ms.rootfs_dirs)
unfolding new_vm
made_vm h id job_id vm ms v e = elim (Bool-cases h.tempdir) [
  | inr n ↦ elim (without_dir n) [ ]
  | inl dir ↦ elim (allocation-cases tried) [
    | inl (reason, refused) ↦ elim (without_resources dir reason refused) [ ]
    | inr (a, jid, held, ok) ↦
        let r = ready h id (
          unready h vm id (resource_guard_new jid held) ms.system
            (hold_resource (resource_guard_new jid held) a ms.system) v
            (ground (arith, dir, ok, e))) in
        rw (new_vm, dir, ok)
          (
            ap (λ (ps : List (ℕ × Process)). ps ++ ms.processes) r.0,
            ap (λ (ds : List ℕ). ds ++ ms.rootfs_dirs) r.1,
          )
  ]
]
  where
    tried : Allocation
    tried = allocate_resources ms.system.manager.limits job_id vm ms.system.manager.allocation

    without_dir : h.tempdir ≡ false → ⊥
    without_dir n = ground (arith, n, e)

    without_resources :
        h.tempdir ≡ true → (reason : RejectionReason) → tried ≡ Allocation.err reason → ⊥
    without_resources dir reason refused = ground (arith, dir, refused, e)

-- A machine that was made and is dropped, where its processes can be killed and its root file system
-- removed, leaves neither a process nor a directory behind.
pub drop_vm-new_vm :
    (h : Host) (id job_id : ℕ) (vm : Vm) (ms : Machines) (v : LinuxVm)
    → IsFresh id ms
    → (new_vm h id job_id vm ms).1 ≡ some v
    → ((drop_vm all_done id (new_vm h id job_id vm ms).0).processes ≡ ms.processes)
      × ((drop_vm all_done id (new_vm h id job_id vm ms).0).rootfs_dirs ≡ ms.rootfs_dirs)
unfolding drop_vm kill_processes end_process
drop_vm-new_vm h id job_id vm ms v fresh e =
    let (processes, dirs) = made_vm h id job_id vm ms v e in
    (
      ap
            (λ (ps : List (ℕ × Process)).
              end_process id Process.virtiofsd (end_process id Process.cloud_hypervisor ps))
            processes
          ∙ ended,
      ap (λ (ds : List ℕ). filterb (λ (d : ℕ). not (d == id)) ds) dirs
          ∙ rw (==_refl id) (dirs-fresh id ms.rootfs_dirs fresh.1),
    )
  where
    ended :
        end_process id Process.virtiofsd (
          end_process id Process.cloud_hypervisor
            ((id, Process.cloud_hypervisor) ∷ (id, Process.virtiofsd) ∷ ms.processes))
        ≡ ms.processes
    ended =
        ap (λ (ps : List (ℕ × Process)). end_process id Process.virtiofsd ps)
          (end_own id Process.cloud_hypervisor ((id, Process.virtiofsd) ∷ ms.processes)
            ∙ ap (λ (ps : List (ℕ × Process)). (id, Process.virtiofsd) ∷ ps)
                (end_process-fresh id Process.cloud_hypervisor ms.processes fresh.0))
        ∙ end_own id Process.virtiofsd ms.processes
        ∙ end_process-fresh id Process.virtiofsd ms.processes fresh.0
