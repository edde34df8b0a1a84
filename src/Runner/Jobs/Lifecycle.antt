-- ===== src/Runner/Jobs/Lifecycle.antt =====
-- runner/src/job_manager.rs: the life of one job, as its status and as the events that the rest of
-- the runner sees.
use mathlib.Core.List.{append-nil}
use cloud_devenv_sh.Base.{
  Option, ℕ, List, ◌≡◌, [], none, true, some, ◌++◌, ◌∷◌, arith, ◌⊎◌, if◌then◌else◌, refl,
  Bool-cases, ◌==◌, inl, inr, Option-cases, ap, subst, sym, ==_iff, false, some_inj,
}
use cloud_devenv_sh.Runner.Jobs.{
  JobManager, register_job, send_event, transition_allowed, JobInfo, get_job, new, JobStatusEvent,
  update_job_status, set_status, new_info,
}
use cloud_devenv_sh.Protocol.{JobConfig, JobStatus, CompletionStatus, status_eq}
use cloud_devenv_sh.Base.Maps.{get, update, get-update, insert, get-insert}

-- The events of a job, oldest first.
abbrev pub trace : ℕ → List JobStatusEvent → List JobStatus
trace id [] = []
trace id (e ∷ es) = let rest = trace id es in if e.job_id == id then e.status ∷ rest else rest

trace-append :
    (id : ℕ) (xs ys : List JobStatusEvent) → trace id (xs ++ ys) ≡ trace id xs ++ trace id ys
trace-append id [] ys = refl
trace-append id (e ∷ es) ys = ground (arith, trace-append id es ys)

abbrev pub status_of : Option JobInfo → Option JobStatus
status_of none = none
status_of (some job) = some job.status

-- The events that lead to a status.
abbrev pub Lifecycle : Option JobStatus → List JobStatus → Type 0
Lifecycle none t = t ≡ []
Lifecycle (some JobStatus.queued) t = t ≡ JobStatus.queued ∷ []
Lifecycle (some JobStatus.running) t = t ≡ JobStatus.queued ∷ JobStatus.running ∷ []
Lifecycle (some (JobStatus.complete c)) t =
    (t ≡ JobStatus.queued ∷ JobStatus.running ∷ JobStatus.complete c ∷ [])
    ⊎ ((c ≡ CompletionStatus.cancelled) × (t ≡ JobStatus.queued ∷ JobStatus.complete c ∷ []))

-- The calls on a manager whose receiver is alive; a job is registered under a fresh id.
pub data Step (m n : JobManager) : Type 0 where
  register :
      (id : ℕ) (config : JobConfig) → get_job id m ≡ none → n ≡ register_job id config m → Step m n
  update_status : (id : ℕ) (status : JobStatus) → update_job_status id status m ≡ some n → Step m n

pub data Reach : JobManager → Type 0 where
  start : Reach new
  next : {m n : JobManager} → Reach m → Step m n → Reach n

pub record Inv (m : JobManager) : Type 0 where
  pub alive : m.receiver_alive ≡ true
  pub lives : (id : ℕ) → Lifecycle (status_of (get id m.jobs)) (trace id m.sent)

-- An allowed change appends one event to the life of the job.
Lifecycle-extend :
    (old status : JobStatus) (t : List JobStatus)
    → transition_allowed old status ≡ true
    → Lifecycle (some old) t
    → Lifecycle (some status) (t ++ status ∷ [])
unfolding transition_allowed
Lifecycle-extend JobStatus.queued JobStatus.queued t h l = cc
Lifecycle-extend JobStatus.queued JobStatus.running t h l = ground arith
Lifecycle-extend JobStatus.queued (JobStatus.complete c) t h l = ground arith
Lifecycle-extend JobStatus.running JobStatus.queued t h l = cc
Lifecycle-extend JobStatus.running JobStatus.running t h l = cc
Lifecycle-extend JobStatus.running (JobStatus.complete c) t h l = ground arith
Lifecycle-extend (JobStatus.complete c) s t h l = cc

abbrev pub event : ℕ → JobStatus → JobStatusEvent
event id status = record { job_id = id; status = status }

pub register-Inv :
    (id : ℕ) (config : JobConfig) (m : JobManager)
    → Inv m
    → get_job id m ≡ none
    → Inv (register_job id config m)
unfolding register_job get_job new_info
register-Inv id config m v fresh = rw (v.alive, send_event) (record { alive = refl; lives = lives })
  where
    silent : (j : ℕ) → (id == j) ≡ true → trace j m.sent ≡ []
    silent j same =
        rw (subst (λ k. get k m.jobs ≡ none) ((==_iff id j).0 same) fresh) at (v.lives j)

    lives :
        (j : ℕ)
        → Lifecycle
            (status_of (get j (insert id (new_info id config) m.jobs)))
            (trace j (m.sent ++ event id JobStatus.queued ∷ []))
    lives j =
        rw (get-insert id j, trace-append j m.sent (event id JobStatus.queued ∷ []))
          (elim (Bool-cases (id == j)) [
            | inl same ↦
                rw same (ap (λ (t : List JobStatus). t ++ JobStatus.queued ∷ []) (silent j same))
            | inr other ↦ rw other (rw append-nil (v.lives j))
          ])

changed-Inv :
    (id : ℕ) (status : JobStatus) (job : JobInfo) (m : JobManager)
    → Inv m
    → get id m.jobs ≡ some job
    → transition_allowed job.status status ≡ true
    → Inv (send_event (event id status) (record m { jobs = update id (set_status status) m.jobs }))
unfolding send_event set_status
changed-Inv id status job m v here allowed = rw v.alive (record { alive = refl; lives = lives })
  where
    found : (j : ℕ) → (id == j) ≡ true → get j m.jobs ≡ some job
    found j same = subst (λ k. get k m.jobs ≡ some job) ((==_iff id j).0 same) here

    lives :
        (j : ℕ)
        → Lifecycle
            (status_of (get j (update id (set_status status) m.jobs)))
            (trace j (m.sent ++ event id status ∷ []))
    lives j =
        rw (get-update id j, trace-append j m.sent (event id status ∷ []))
          (elim (Bool-cases (id == j)) [
            | inl same ↦
                rw (same, found j same)
                  (Lifecycle-extend job.status status _ allowed (rw (found j same) at (v.lives j)))
            | inr other ↦ rw other (rw append-nil (v.lives j))
          ])

pub update_job_status-Inv :
    (id : ℕ) (status : JobStatus) (m n : JobManager)
    → Inv m
    → update_job_status id status m ≡ some n
    → Inv n
unfolding update_job_status
update_job_status-Inv id status m n v h = elim (Option-cases (get id m.jobs)) [
  | inl e ↦ cc (rw (e, update_job_status) at h)
  | inr (job, e) ↦ elim (Bool-cases (status_eq job.status status)) [
    | inl same ↦ subst Inv (some_inj (rw (e, same, update_job_status) at h)) v
    | inr other ↦ elim (Bool-cases (transition_allowed job.status status)) [
      | inl allowed ↦
          subst Inv (some_inj (rw (e, other, allowed, update_job_status) at h))
            (changed-Inv id status job m v e allowed)
      | inr refused ↦ subst Inv (some_inj (rw (e, other, refused, update_job_status) at h)) v
    ]
  ]
]

pub Reach-Inv : {m : JobManager} → Reach m → Inv m
unfolding new get
Reach-Inv Reach.start = record { alive = refl; lives = λ id. refl }
Reach-Inv (Reach.next r (Step.register id config fresh e)) =
    subst Inv (sym e) (register-Inv id config _ (Reach-Inv r) fresh)
Reach-Inv (Reach.next r (Step.update_status id status e)) =
    update_job_status-Inv id status _ _ (Reach-Inv r) e

-- In every manager that is reached by registering new ids and by updates, the events of each job are exactly the steps of its life up to its
-- status: none before it is registered, then queued, then running, then one completion, which may
-- follow queued at once only if it is a cancellation.
pub events-Lifecycle :
    {m : JobManager} (id : ℕ) → Reach m → Lifecycle (status_of (get_job id m)) (trace id m.sent)
unfolding get_job
events-Lifecycle id r = (Reach-Inv r).lives id

refused_unchanged :
    (id : ℕ) (job : JobInfo) (status : JobStatus) (m : JobManager)
    → get_job id m ≡ some job
    → transition_allowed job.status status ≡ false
    → update_job_status id status m ≡ some m
unfolding get_job update_job_status
refused_unchanged id job status m e h = ground arith

-- A status that is complete stays, and is not announced again, whatever update is tried.
pub complete_final :
    (id : ℕ) (job : JobInfo) (c : CompletionStatus) (status : JobStatus) (m : JobManager)
    → get_job id m ≡ some job
    → job.status ≡ JobStatus.complete c
    → update_job_status id status m ≡ some m
unfolding transition_allowed
complete_final id job c status m e h = refused_unchanged id job status m e (ground arith)
