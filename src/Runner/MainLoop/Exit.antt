-- ===== src/Runner/MainLoop/Exit.antt =====
-- runner/src/bin/runner.rs: the main loop once the runner is shutting down.
use cloud_devenv_sh.Base.{
  ℕ, [], ◌∷◌, List, ◌++◌, ◌+◌, ◌≡◌, arith, true, some, Option-cases, Bool-cases, inl, refl, inr,
  subst, ap, ==_refl,
}
use cloud_devenv_sh.Runner.MainLoop.Rounds.{
  main_round, select_arm, LoopEvent, all_done, resume, Loop, nth, Reach,
}
use cloud_devenv_sh.Runner.MainLoop.{handle_status_event, Runner, send_message, collect_metrics}
use cloud_devenv_sh.Protocol.{ClientMessage, CompletionStatus, Platform, JobStatus}
use cloud_devenv_sh.Runner.Jobs.{JobStatusEvent, active_job_count}
use cloud_devenv_sh.Runner.Resources.{ResourceLimits}
use cloud_devenv_sh.Runner.MainLoop.AtMostOnce.{Inv, Reach-Inv}
use cloud_devenv_sh.Runner.MainLoop.Reports.{
  reports, is_end, ends-completes, Lifecycle-completes, ends-next,
}

-- An end that is read after the position was not read before it.
unread_once :
    (id : ℕ) (r : Runner) (event : JobStatusEvent) (c : CompletionStatus)
    → Inv r
    → nth r.jobs.sent r.events_read ≡ some event
    → event.status ≡ JobStatus.complete c
    → event.job_id ≡ id
    → reports id r.client_sent ≡ 0
unread_once id r event c v unread s i = omega (
  arith,
  v.told id,
  ends-completes id (r.events_read + 1) r.jobs.sent,
  Lifecycle-completes _ _ (v.lives.lives id),
  ends-next id r.events_read event r.jobs.sent unread,
  ended,
)
  where
    ended : is_end id event ≡ 1
    ended = ground (arith, s, i, ==_refl id)

-- A reachable runner that is shutting down, has no active job and has not yet read the event by which
-- some job ended, leaves the loop in its next round whatever could be received, and the server was never
-- told of the end of that job.
pub last_end_unreported :
    {platform : Platform} {limits : ResourceLimits} {r : Runner} (id : ℕ) (c : CompletionStatus)
    (event : JobStatusEvent)
    → Reach platform limits r
    → r.shutting_down ≡ true
    → active_job_count r.jobs ≡ 0
    → nth r.jobs.sent r.events_read ≡ some event
    → event.status ≡ JobStatus.complete c
    → event.job_id ≡ id
    → ((e : LoopEvent) → main_round e r ≡ some (Loop.leaves r)) × (reports id r.client_sent ≡ 0)
unfolding main_round all_done
last_end_unreported {r = r} id c event reach h a unread s i =
    (λ e. rw (h, a) refl, unread_once id r event c (Reach-Inv reach) unread s i)

-- The messages that ask for work.
abbrev pub requests : List ClientMessage → ℕ
requests [] = 0
requests (m ∷ ms) =
    let rest = requests ms in
    elim m [
      | ClientMessage.claim_job id vm ↦ rest + 1
      | ClientMessage.request_job ↦ rest + 1
      | _ ↦ rest
    ]

requests-append : (ms ns : List ClientMessage) → requests (ms ++ ns) ≡ requests ms + requests ns
requests-append [] ns = omega arith
requests-append (m ∷ ms) ns = ground (arith, requests-append ms ns)

asks_nothing :
    (e : LoopEvent) (r : Runner)
    → r.shutting_down ≡ true
    → let s = resume r (select_arm e r) in
      (s.shutting_down ≡ true) × (requests s.client_sent ≡ requests r.client_sent)
unfolding select_arm handle_status_event send_message
asks_nothing LoopEvent.shutdown_signal r h = ground (arith, h)
asks_nothing LoopEvent.status_event r h = elim (Option-cases (nth r.jobs.sent r.events_read)) [
  | inl e ↦ rw (e, select_arm, resume) (h, refl)
  | inr (event, e) ↦ rw (e, select_arm, resume) (asks_no_job event _ h)
]
  where
    asks_no_job :
        (event : JobStatusEvent) (q : Runner)
        → q.shutting_down ≡ true
        → let s = handle_status_event event q in
          (s.shutting_down ≡ true) × (requests s.client_sent ≡ requests q.client_sent)
    asks_no_job event q g = ground (
      arith,
      g,
      requests-append q.client_sent
          (ClientMessage.update_job_status event.job_id event.status ∷ []),
    )
asks_nothing (LoopEvent.message_received message alive) r h = ground (arith, h)
asks_nothing LoopEvent.websocket_error r h = ground (arith, h)
asks_nothing (LoopEvent.websocket_closed b) r h = ground (arith, h)
asks_nothing LoopEvent.metrics_tick r h = ground (
  arith,
  h,
  requests-append r.client_sent (ClientMessage.report_metrics (collect_metrics r) ∷ []),
)

-- A runner that is shutting down neither claims nor asks for a job, in any round, and goes on shutting
-- down.
pub shutting_down_asks_nothing :
    (e : LoopEvent) (r s : Runner)
    → r.shutting_down ≡ true
    → main_round e r ≡ some (Loop.continues s)
    → (s.shutting_down ≡ true) × (requests s.client_sent ≡ requests r.client_sent)
unfolding main_round
shutting_down_asks_nothing e r s h k = elim (Bool-cases (all_done r)) [
  | inl d ↦ cc (simp d at k)
  | inr d ↦
      subst
        (λ (t : Runner).
          (t.shutting_down ≡ true) × (requests t.client_sent ≡ requests r.client_sent))
        (ap (resume r) (simp d at k)) (asks_nothing e r h)
]
