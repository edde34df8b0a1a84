-- ===== src/Runner/MainLoop/Reports.antt =====
-- runner/src/bin/runner.rs: what the server is told of the ends of jobs, over a whole run.
use cloud_devenv_sh.Base.{
  none, ℕ, [], ◌∷◌, List, Option, ◌-◌, ◌≡◌, ◌≤◌, if◌then◌else◌, some, ◌++◌, ◌+◌, Bool-cases, arith,
  ◌==◌, inl, inr, ==_iff, false, refl, subst,
}
use cloud_devenv_sh.Runner.Jobs.{JobStatusEvent}
use cloud_devenv_sh.Runner.MainLoop.Rounds.{nth}
use cloud_devenv_sh.Protocol.{ClientMessage, JobStatus}
use cloud_devenv_sh.Runner.Jobs.Lifecycle.{Lifecycle, trace}

-- How often the messages report the end of a job.
abbrev pub reports : ℕ → List ClientMessage → ℕ
reports id [] = 0
reports id (m ∷ ms) =
    let rest = reports id ms in
    elim m [ ClientMessage.update_job_status j s ↦ if j == id then rest + 1 else rest | _ ↦ rest ]

-- How often the first events announce the end of a job.
abbrev pub ends : ℕ → ℕ → List JobStatusEvent → ℕ
ends id n [] = 0
ends id n (e ∷ es) =
    let rest = ends id (n - 1) es in
    if n == 0 then 0 else elim e.status [
      | JobStatus.complete c ↦ if e.job_id == id then rest + 1 else rest
      | _ ↦ rest
    ]

pub reports-append :
    (id : ℕ) (ms ns : List ClientMessage) → reports id (ms ++ ns) ≡ reports id ms + reports id ns
reports-append id [] ns = omega arith
reports-append id (m ∷ ms) ns = ground (arith, reports-append id ms ns)

pub ends-append : (id n : ℕ) (es fs : List JobStatusEvent) → ends id n es ≤ ends id n (es ++ fs)
ends-append id n [] fs = omega arith
ends-append id n (e ∷ es) fs = ground (arith, ends-append id (n - 1) es fs)

abbrev pub is_end : ℕ → JobStatusEvent → ℕ
is_end id e = elim e.status [ JobStatus.complete c ↦ if e.job_id == id then 1 else 0 | _ ↦ 0 ]

ends-zero : (id : ℕ) (es : List JobStatusEvent) → ends id 0 es ≡ 0
ends-zero id [] = refl
ends-zero id (e ∷ es) = refl

suc_pred : (n : ℕ) → n + 1 - 1 ≡ n
suc_pred n = omega arith

pred_suc : (n : ℕ) → (n == 0) ≡ false → n - 1 + 1 ≡ n
pred_suc n h = ground arith

-- Reading one more event.
pub ends-next :
    (id n : ℕ) (e : JobStatusEvent) (es : List JobStatusEvent)
    → nth es n ≡ some e
    → ends id (n + 1) es ≡ ends id n es + is_end id e
unfolding nth
ends-next id n e [] h = cc
ends-next id n e (f ∷ es) h = elim (Bool-cases (n == 0)) [
  | inl z ↦ ground (arith, ends-zero id es, suc_pred n, (==_iff n 0).0 z, h)
  | inr z ↦ ground (
    arith,
    suc_pred n,
    pred_suc n z,
    subst (λ k. ends id k es ≡ ends id (n - 1) es + is_end id e) (pred_suc n z)
        (ends-next id (n - 1) e es (rw z at h)),
  )
]

-- The completions in a trace.
abbrev pub completes : List JobStatus → ℕ
completes [] = 0
completes (s ∷ ss) =
    let rest = completes ss in elim s [ JobStatus.complete c ↦ rest + 1 | _ ↦ rest ]

pub ends-completes : (id n : ℕ) (es : List JobStatusEvent) → ends id n es ≤ completes (trace id es)
ends-completes id n [] = omega arith
ends-completes id n (e ∷ es) = ground (arith, ends-completes id (n - 1) es)

pub Lifecycle-completes :
    (o : Option JobStatus) (t : List JobStatus) → Lifecycle o t → completes t ≤ 1
Lifecycle-completes none t l = ground (arith, l)
Lifecycle-completes (some JobStatus.queued) t l = ground (arith, l)
Lifecycle-completes (some JobStatus.running) t l = ground (arith, l)
Lifecycle-completes (some (JobStatus.complete c)) t l = ground (arith, l)
