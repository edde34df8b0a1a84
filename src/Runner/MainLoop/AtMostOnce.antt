-- ===== src/Runner/MainLoop/AtMostOnce.antt =====
-- runner/src/bin/runner.rs: over a whole run, how often the server hears of the end of a job.
use cloud_devenv_sh.Base.{
  none, ℕ, [], ◌∷◌, arith, ◌≡◌, ◌≤◌, some, Option-cases, ◌+◌, inl, inr, subst, sym, Bool,
  Bool-cases, List, ◌++◌, refl, ap,
}
use cloud_devenv_sh.Runner.Jobs.Lifecycle as Life
use cloud_devenv_sh.Runner.Jobs.{
  JobManager, register_job, update_job_status, send_event, JobStatusEvent, get_job, set_job_running,
  complete_job,
}
use cloud_devenv_sh.Runner.MainLoop.{
  Runner, handle_server_message, handle_status_event, handle_new_job_available, send_message,
  check_capacity_and_request_job, handle_job_claimed, handle_job_timed_out, or_same,
  handle_job_cancelled, String, claimed_config, handle_completion, collect_metrics, Handled,
}
use cloud_devenv_sh.Runner.MainLoop.Reports.{
  ends, reports, ends-append, is_end, ends-next, reports-append, ends-completes,
  Lifecycle-completes,
}
use cloud_devenv_sh.Protocol.{
  JobConfig, JobStatus, ServerMessage, ClientMessage, Vm, CompletionStatus, Platform,
}
use cloud_devenv_sh.Runner.MainLoop.Rounds.{
  nth, IsFresh, LoopEvent, handle_websocket_closed, main_round, select_arm, after_message, Reach,
  Step, all_done, new_runner, resume, claim_launched, claim_running,
}
use cloud_devenv_sh.Runner.Vms.{launch_vm, exit_to_completion}
use cloud_devenv_sh.Runner.MainLoop.Messages.{left}
use cloud_devenv_sh.Runner.Resources.{has_minimal_capacity, ResourceLimits}

-- What the jobs and the messages keep to: the events of each job are a life, and the reports of its end
-- are at most the ends that were read.
pub record Inv (r : Runner) : Type 0 where
  pub lives : Life.Inv r.jobs
  pub told : (id : ℕ) → reports id r.client_sent ≤ ends id r.events_read r.jobs.sent

-- One job manager follows another: its events go on where the other's stopped.
abbrev Follows : JobManager → JobManager → Type 0
Follows m n = (Life.Inv m → Life.Inv n) × ((id k : ℕ) → ends id k m.sent ≤ ends id k n.sent)

update-Follows :
    (id : ℕ) (status : JobStatus) (m : JobManager)
    → Follows m (or_same (update_job_status id status m) m)
unfolding update_job_status send_event
update-Follows id status m = elim (Option-cases (update_job_status id status m)) [
  | inl e ↦ rw e (λ v. v, λ j k. omega arith)
  | inr (n, e) ↦ rw e (λ v. Life.update_job_status-Inv id status m n v e, λ j k. grown n j k e)
]
  where
    grown :
        (n : JobManager) (j k : ℕ)
        → update_job_status id status m ≡ some n
        → ends j k m.sent ≤ ends j k n.sent
    grown n j k e =
        ground (arith, e, ends-append j k m.sent (record { job_id = id; status = status } ∷ []))

register-Follows :
    (id : ℕ) (config : JobConfig) (m : JobManager)
    → get_job id m ≡ none
    → Follows m (register_job id config m)
unfolding register_job send_event
register-Follows id config m fresh = (
  λ v. Life.register-Inv id config m v fresh,
  λ j k.
      ground
        (arith, ends-append j k m.sent (record { job_id = id; status = JobStatus.queued } ∷ [])),
)

Follows-trans : (l m n : JobManager) → Follows l m → Follows m n → Follows l n
Follows-trans l m n f g = (λ v. g.0 (f.0 v), λ j k. omega (arith, f.1 j k, g.1 j k))

-- A runner that moved its jobs on, and told the server of no end.
kept :
    (r s : Runner)
    → Follows r.jobs s.jobs
    → s.events_read ≡ r.events_read
    → ((id : ℕ) → reports id s.client_sent ≤ reports id r.client_sent)
    → Inv r
    → Inv s
kept r s f e t v = record {
  lives = f.0 v.lives;
  told = λ id. rw e (omega (arith, t id, v.told id, f.1 id r.events_read));
}

Follows-refl : (m : JobManager) → Follows m m
Follows-refl m = (λ v. v, λ j k. omega arith)

status_event-Inv :
    (event : JobStatusEvent) (r : Runner)
    → nth r.jobs.sent r.events_read ≡ some event
    → Inv r
    → Inv (handle_status_event event (record r { events_read = r.events_read + 1 }))
unfolding handle_status_event send_message check_capacity_and_request_job
status_event-Inv event r h v = record {
  lives = subst Life.Inv (sym jobs_same) v.lives;
  told = λ id. ground (
    arith,
    v.told id,
    ends-next id r.events_read event r.jobs.sent h,
    said id event.status refl,
    jobs_same,
    read_same,
  );
}
  where
    after : Runner
    after = handle_status_event event (record r { events_read = r.events_read + 1 })

    jobs_same : after.jobs ≡ r.jobs
    jobs_same = ground arith

    read_same : after.events_read ≡ r.events_read + 1
    read_same = ground arith

    report : JobStatus → List ClientMessage
    report s = ClientMessage.update_job_status event.job_id s ∷ []

    said :
        (id : ℕ) (s : JobStatus)
        → event.status ≡ s
        → reports id after.client_sent ≤ reports id r.client_sent + is_end id event
    said id JobStatus.queued e = ground (arith, e)
    said id JobStatus.running e = ground (arith, e)
    said id (JobStatus.complete c) e = ground (
      arith,
      e,
      reports-append id r.client_sent (report (JobStatus.complete c)),
      reports-append id (r.client_sent ++ report (JobStatus.complete c))
          (ClientMessage.request_job ∷ []),
      reports-append id r.client_sent (ClientMessage.request_job ∷ []),
    )

-- The jobs, the position and the messages after a handler that sends nothing and changes one status.
one_update :
    (id : ℕ) (status : JobStatus) (r s : Runner)
    → s.jobs ≡ or_same (update_job_status id status r.jobs) r.jobs
    → s.events_read ≡ r.events_read
    → s.client_sent ≡ r.client_sent
    → Inv r
    → Inv s
one_update id status r s e f g v =
    kept r s (subst (Follows r.jobs) (sym e) (update-Follows id status r.jobs)) f
      (λ j. rw g (omega arith)) v

new_job-Inv :
    (id : ℕ) (vm : Vm) (r : Runner) → Inv r → Inv (left (handle_new_job_available id vm r))
unfolding handle_new_job_available send_message
new_job-Inv id vm r v =
    kept r _ (subst (Follows r.jobs) (sym jobs_same) (Follows-refl r.jobs)) (ground arith)
      (λ j. ground (arith, reports-append j r.client_sent (ClientMessage.claim_job id vm ∷ []))) v
  where
    jobs_same : (left (handle_new_job_available id vm r)).jobs ≡ r.jobs
    jobs_same = ground arith

claimed-Inv :
    (id : ℕ) (vm : Vm) (url : String) (r : Runner)
    → get_job id r.jobs ≡ none
    → Inv r
    → Inv (left (handle_job_claimed id vm url r))
unfolding handle_job_claimed launch_vm set_job_running
claimed-Inv id vm url r fresh v = elim (Bool-cases r.shutting_down) [
  | inl e ↦ simp e v
  | inr e ↦ rw e (
      kept r _
        (Follows-trans r.jobs _ _ (register-Follows id (claimed_config id) r.jobs fresh)
          (update-Follows id JobStatus.running (register_job id (claimed_config id) r.jobs)))
        refl (λ j. omega arith) v)
]

handled-Inv :
    (message : ServerMessage) (alive : Bool) (r : Runner)
    → IsFresh (LoopEvent.message_received message alive) r
    → Inv r
    → Inv (left (handle_server_message message alive r))
unfolding handle_server_message handle_job_timed_out handle_job_cancelled complete_job
handled-Inv (ServerMessage.new_job_available id vm) alive r fresh v = new_job-Inv id vm r v
handled-Inv (ServerMessage.job_claimed id vm url) alive r fresh v = claimed-Inv id vm url r fresh v
handled-Inv (ServerMessage.job_timed_out id) alive r fresh v =
    one_update id (JobStatus.complete CompletionStatus.timed_out) r _ (ground arith) (ground arith)
      (ground arith) v
handled-Inv (ServerMessage.job_cancelled id) alive r fresh v =
    one_update id (JobStatus.complete CompletionStatus.cancelled) r _ (ground arith) (ground arith)
      (ground arith) v

-- A message other than a report of an end.
quiet-Inv :
    (message : ClientMessage) (r : Runner)
    → ((id : ℕ) → reports id (message ∷ []) ≡ 0)
    → Inv r
    → Inv (or_same (send_message message r) r)
unfolding send_message
quiet-Inv message r q v = elim (Bool-cases r.connected) [
  | inl e ↦ simp e (record {
    lives = v.lives;
    told = λ id. omega (arith, reports-append id r.client_sent (message ∷ []), q id, v.told id);
  })
  | inr e ↦ simp e v
]

check-Inv : (r : Runner) → Inv r → Inv (or_same (check_capacity_and_request_job r) r)
unfolding check_capacity_and_request_job
check-Inv r v = elim (Bool-cases (has_minimal_capacity r.resources.limits r.resources.allocation)) [
  | inl e ↦ simp e (quiet-Inv ClientMessage.request_job r (λ id. refl) v)
  | inr e ↦ simp e v
]

sent_kept :
    (r s : Runner)
    → s.jobs ≡ r.jobs
    → s.events_read ≡ r.events_read
    → ((id : ℕ) → reports id s.client_sent ≤ reports id r.client_sent)
    → Inv r
    → Inv s
sent_kept r s e = kept r s (subst (Follows r.jobs) (sym e) (Follows-refl r.jobs))

after-Inv :
    (r : Runner) (h : Handled) → Inv r → Inv (left h) → Inv (resume r (some (after_message h)))
unfolding after_message
after-Inv r (Handled.done s) v w = w
after-Inv r (Handled.failed s) v w = v
after-Inv r (Handled.waiting s) v w = v

arm-Inv : (e : LoopEvent) (r : Runner) → IsFresh e r → Inv r → Inv (resume r (select_arm e r))
unfolding select_arm handle_websocket_closed check_capacity_and_request_job send_message
arm-Inv LoopEvent.shutdown_signal r fresh v =
    sent_kept r _ (ground arith) (ground arith) (λ j. ground arith) v
arm-Inv LoopEvent.status_event r fresh v = elim (Option-cases (nth r.jobs.sent r.events_read)) [
  | inl e ↦ rw (e, select_arm, resume) v
  | inr (event, e) ↦ rw (e, select_arm, resume) (status_event-Inv event r e v)
]
arm-Inv (LoopEvent.message_received message alive) r fresh v = elim (Bool-cases r.shutting_down) [
  | inl e ↦ simp e v
  | inr e ↦
      simp e (
        after-Inv r (handle_server_message message alive r) v (handled-Inv message alive r fresh v))
]
arm-Inv LoopEvent.websocket_error r fresh v =
    sent_kept r _ (ground arith) (ground arith) (λ j. ground arith) v
arm-Inv (LoopEvent.websocket_closed b) r fresh v =
    sent_kept r _ (ground arith) (ground arith)
      (λ j. ground (arith, reports-append j r.client_sent (ClientMessage.request_job ∷ []))) v
arm-Inv LoopEvent.metrics_tick r fresh v =
    quiet-Inv (ClientMessage.report_metrics (collect_metrics r)) r (λ id. refl) v

Step-Inv : {r s : Runner} → Step r s → Inv r → Inv s
unfolding main_round handle_completion complete_job claim_launched claim_running set_job_running
Step-Inv {r = r} (Step.round e fresh h) v = elim (Bool-cases (all_done r)) [
  | inl d ↦ subst Inv (ap (resume r) (simp d at h)) v
  | inr d ↦ subst Inv (ap (resume r) (simp d at h)) (arm-Inv e r fresh v)
]
Step-Inv {r = r} (Step.completion event h e) v =
    one_update event.job_id (JobStatus.complete (exit_to_completion event.status)) r _
      (ap (λ (t : Runner). t.jobs) e) (ap (λ (t : Runner). t.events_read) e)
      (ap (λ (t : Runner). t.client_sent) e) v
Step-Inv {r = r} (Step.vm_task id w h e) v =
    subst Inv (sym e) (record { lives = v.lives; told = v.told })
Step-Inv {r = r} (Step.claim_launches id log_url vms d fresh h e) v = subst Inv (sym e) (
    kept r (claim_launched id log_url vms r) (register-Follows id (claimed_config id) r.jobs fresh)
      refl (λ j. omega arith) v)
Step-Inv {r = r} (Step.claim_runs id e) v = subst Inv (sym e) (
    kept r (claim_running id r) (update-Follows id JobStatus.running r.jobs) refl (λ j. omega arith)
      v)
Step-Inv {r = r} (Step.resources m e) v =
    subst Inv (sym e) (record { lives = v.lives; told = v.told })
Step-Inv {r = r} (Step.connection b e) v =
    subst Inv (sym e) (record { lives = v.lives; told = v.told })

pub Reach-Inv :
    {platform : Platform} {limits : ResourceLimits} {r : Runner} → Reach platform limits r → Inv r
unfolding new_runner
Reach-Inv Reach.here = record { lives = Life.Reach-Inv Life.Reach.start; told = λ id. omega arith }
Reach-Inv (Reach.next h s) = Step-Inv s (Reach-Inv h)

-- In every run of a runner that is given only jobs it does not know yet, whatever messages arrive and in
-- whatever order its tasks end and its connection comes and goes, the server is told of the end of each
-- job at most once.
pub end_reported_at_most_once :
    {platform : Platform} {limits : ResourceLimits} {r : Runner} (id : ℕ)
    → Reach platform limits r
    → reports id r.client_sent ≤ 1
end_reported_at_most_once {r = r} id h =
    let v = Reach-Inv h in
    omega (
      arith,
      v.told id,
      ends-completes id r.events_read r.jobs.sent,
      Lifecycle-completes _ _ (v.lives.lives id),
    )
