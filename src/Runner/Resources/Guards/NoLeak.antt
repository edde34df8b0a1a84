-- ===== src/Runner/Resources/Guards/NoLeak.antt =====
-- What holds of every system that the guards of runner/src/resource_manager.rs can reach.
use cloud_devenv_sh.Base.{
  ℕ, ◌≡◌, refl, ap, ◌∙◌, List, [], ◌∷◌, arith, leb, if◌then◌else◌, count, collect, collect,
  count-range, Map,
}
use cloud_devenv_sh.Base.Maps.{keys, total}
use cloud_devenv_sh.Protocol.{Vm}
use cloud_devenv_sh.Runner.Resources.{ResourceLimits, ResourceState, ipv4, new, new_state}
use cloud_devenv_sh.Runner.Resources.Accounting.{IsMachine, Inv, cpus_of, bytes_of, new_state-Inv}
use cloud_devenv_sh.Runner.Resources.Guards.{
  System, IpGuard, CidGuard, Task, Reach, here, next, start,
}
use cloud_devenv_sh.Runner.Resources.Guards.Ips.{guard_ip, task_ip, ip_count, Step-ip_count}
use cloud_devenv_sh.Runner.Resources.Guards.Cids.{guard_cid, task_cid, cid_count, Step-cid_count}
use cloud_devenv_sh.Runner.Resources.Guards.Books.{Kept, owners, Step-Kept}

Reach-ip_count : {s t : System} (a : ℕ) → Reach s t → ip_count a t ≡ ip_count a s
Reach-ip_count a here = refl
Reach-ip_count a (next r st) = Step-ip_count a st ∙ Reach-ip_count a r

Reach-cid_count : {s t : System} (a : ℕ) → Reach s t → cid_count a t ≡ cid_count a s
Reach-cid_count a here = refl
Reach-cid_count a (next r st) = Step-cid_count a st ∙ Reach-cid_count a r

start-Kept : (limits : ResourceLimits) → Kept limits (start limits)
unfolding start new
start-Kept limits = record {
  limits_kept = refl;
  books = unfold new_state in new_state-Inv limits;
  owned = λ a. unfold new_state in refl;
}

Reach-Kept :
    (limits : ResourceLimits) {s : System}
    → IsMachine limits
    → Reach (start limits) s
    → Kept limits s
Reach-Kept limits m here = start-Kept limits
Reach-Kept limits m (next r st) = Step-Kept m (Reach-Kept limits m r) st

-- In every reachable system each address from 10.0.0.2 to 10.0.0.254 is in exactly one place (free,
-- in a guard, in a release task, or taken by a caller), and no other address is in the system.
pub ip_in_one_place :
    (limits : ResourceLimits) {s : System} (a : ℕ)
    → Reach (start limits) s
    → ip_count a s
      ≡ (if leb (ipv4 10 0 0 2) a then (if leb a (ipv4 10 0 0 254) then 1 else 0) else 0)
unfolding start new
ip_in_one_place limits a r = ground (arith, Reach-ip_count a r, count-range a (ipv4 10 0 0 2) 253)

-- In every reachable system each context id from 3 to 1024 is in exactly one place (free, in a
-- guard, or in a release task), and no other context id is in the system.
pub cid_in_one_place :
    (limits : ResourceLimits) {s : System} (a : ℕ)
    → Reach (start limits) s
    → cid_count a s ≡ (if leb 3 a then (if leb a 1024 then 1 else 0) else 0)
unfolding start new
cid_in_one_place limits a r = ground (arith, Reach-cid_count a r, count-range a 3 1022)

-- In every system that is reached by allocating under ids that are not registered, and by the other
-- steps in any order, the counters are the sums over the registered jobs, every registered job
-- belongs to one guard, release task or caller of `take`, and the limits leave the reserve free.
pub books_kept :
    (limits : ResourceLimits) {s : System}
    → IsMachine limits
    → Reach (start limits) s
    → Inv limits s.manager.allocation
      × ((a : ℕ) → count a (keys s.manager.allocation.jobs) ≡ owners a s)
books_kept limits m r = let k = Reach-Kept limits m r in (k.books, k.owned)

no_keys : (m : Map Vm) → ((a : ℕ) → count a (keys m) ≡ 0) → m ≡ []
no_keys [] h = refl
no_keys ((k, v) ∷ m) h = absurd (ground (arith, h k))

drained_books :
    (limits : ResourceLimits) (s : ResourceState) → Inv limits s → s.jobs ≡ [] → s ≡ new_state
unfolding new_state total
drained_books limits s v e =
    let cpus = v.cpus_counted ∙ ap (total cpus_of) e in
    let memory = v.memory_counted ∙ ap (total bytes_of) e in
    λ i. record { allocated_cpus = cpus i; allocated_memory = memory i; jobs = e i }

-- No leak: in a system that is reached by allocating under ids that are not registered, and by the
-- other steps in any order, once no guard is alive, every release task has run and nothing was taken out of a guard,
-- the manager has its first books again, and every address and context id is free exactly once.
pub no_leak :
    (limits : ResourceLimits) {s : System} (ip cid : ℕ)
    → IsMachine limits
    → Reach (start limits) s
    → s.ip_guards ≡ []
    → s.cid_guards ≡ []
    → s.resource_guards ≡ []
    → s.tasks ≡ []
    → s.taken_ips ≡ []
    → s.taken_jobs ≡ []
    → (s.manager.allocation ≡ new_state)
      × (count ip s.manager.free_ips ≡ count ip (new limits).free_ips)
      × (count cid s.manager.free_cids ≡ count cid (new limits).free_cids)
unfolding start new
no_leak limits {s} ip cid m r e1 e2 e3 e4 e5 e6 =
    let k = Reach-Kept limits m r in
    (
      drained_books limits s.manager.allocation k.books (no_keys s.manager.allocation.jobs unowned),
      free_ips,
      free_cids,
    )
  where
    unowned : (a : ℕ) → count a (keys s.manager.allocation.jobs) ≡ 0
    unowned a = (Reach-Kept limits m r).owned a ∙ simp (e3, e4, e6)

    free_ips : count ip s.manager.free_ips ≡ count ip (new limits).free_ips
    free_ips = omega (
      arith,
      Reach-ip_count ip r,
      ap (λ (l : List IpGuard). count ip (collect guard_ip l)) e1,
      ap (λ (l : List Task). count ip (collect task_ip l)) e4,
      ap (count ip) e5,
    )

    free_cids : count cid s.manager.free_cids ≡ count cid (new limits).free_cids
    free_cids = omega (
      arith,
      Reach-cid_count cid r,
      ap (λ (l : List CidGuard). count cid (collect guard_cid l)) e2,
      ap (λ (l : List Task). count cid (collect task_cid l)) e4,
    )
