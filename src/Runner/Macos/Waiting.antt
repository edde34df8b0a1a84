-- ===== src/Runner/Macos/Waiting.antt =====
-- runner/src/vm_impl/macos.rs, `wait`, and what becomes of the result that the guest reports.
use cloud_devenv_sh.Runner.Macos.{turn, wait, MachineState}
use cloud_devenv_sh.Runner.Driver.Actions.{ok, err, Process, World, Call, is_ok, Result}
use cloud_devenv_sh.Runner.Driver.{prepare, run_devenv, main, project_dir}
use cloud_devenv_sh.Runner.Driver.Reports.{
  prepare-IsSilent, asked_to_halt, Finished, reported, told_prepared, IsSilent,
}
use cloud_devenv_sh.Runner.Vsock.Server.{Guest, serve}
use cloud_devenv_sh.Runner.Vsock.{Connection, handle_guest_connection, receive_result, store_result}
use cloud_devenv_sh.Runner.Vms.{exit_to_completion, VmExitStatus}
use cloud_devenv_sh.Protocol.{VsockGuestMessage, CompletionStatus, Platform}
use cloud_devenv_sh.Base.Loops.{poll_returns}
use cloud_devenv_sh.Base.{
  refl, ==_refl, ◌∙◌, ℕ, ap, ◌<◌, ◌≡◌, map, some, none, true, false, ◌∷◌, [], ◌+◌, arith, Option,
  Bool, List, subst,
}

pub wait_ends :
    (n extra : ℕ) (states : ℕ → MachineState) (i : ℕ) (status : VmExitStatus)
    → ((k : ℕ) → k < n → turn (states (i + k)) ≡ none)
    → turn (states (i + n)) ≡ some status
    → wait (n + 1 + extra) states i ≡ some status
unfolding wait
wait_ends n extra states i status quiet h =
    poll_returns n extra (λ (j : ℕ). turn (states j)) i status quiet h

-- What the host reads from a driver on a connection that it was ready on.
abbrev pub connected : ℕ → List VsockGuestMessage → Guest
connected id reports = record {
  written = true;
  messages = some (VsockGuestMessage.ready id) ∷ map some reports;
}

abbrev pub exit_of : Option VmExitStatus → Option CompletionStatus
exit_of none = none
exit_of (some status) = some (exit_to_completion status)

-- The driver fails, asks the system to halt, and has its failure stored; what the runner makes of the machine
-- that then stops.
abbrev pub Completes : World → Process → Connection → ℕ → (ℕ → MachineState) → Type 0
Completes w p c fuel states =
    let (r, p') = main w Platform.aarch64_darwin p in
    (is_ok r ≡ false)
    × (asked_to_halt p'.steps ≡ true)
    × ((serve w.job_config.id (connected w.job_config.id p'.reports) c).job_result
        ≡ some (some false))
    × (exit_of (wait fuel states 0) ≡ some CompletionStatus.success)

stored_failure :
    (id : ℕ) (reports : List VsockGuestMessage) (c : Connection) (old : Option Bool)
    → reports ≡ VsockGuestMessage.complete id false ∷ []
    → c.job_result ≡ some old
    → (serve id (connected id reports) c).job_result ≡ some (some false)
unfolding serve handle_guest_connection receive_result store_result
stored_failure id reports c old e h = rw e (ground (arith, h, ==_refl id))

sent_failure :
    (w : World) (b : Bool) (rs : List VsockGuestMessage)
    → b ≡ false
    → w.call (Call.report_complete false) ≡ true
    → rs ≡ []
    → reported w b rs ≡ VsockGuestMessage.complete w.job_config.id false ∷ []
sent_failure w b rs e f h = rw (e, h, f) refl

stopped-turn : (s : MachineState) → s ≡ MachineState.stopped → turn s ≡ some VmExitStatus.success
unfolding turn
stopped-turn s e = ap turn e

finished :
    (w : World) (p p' : Process)
    → p.steps ≡ []
    → prepare w Platform.aarch64_darwin p ≡ (ok tt, p')
    → Finished w Platform.aarch64_darwin
        (is_ok (run_devenv w (project_dir Platform.aarch64_darwin) p').0)
        p.reports
        (main w Platform.aarch64_darwin p)
finished w p p' s e = told_prepared w Platform.aarch64_darwin p p' e (
    subst (λ (r : Result (Unit {0}) × Process). IsSilent p.reports r.1) e
      (prepare-IsSilent p.reports w Platform.aarch64_darwin p (refl, ap asked_to_halt s)))

-- A job that fails completes as a success on macOS: where the driver comes to the run of devenv and that
-- fails, the driver asks the system to halt, and its failure arrives and is stored in the shared state; but
-- `wait` looks at the state of the machine only, so when the machine has stopped, as it was told to, the
-- exit status is a success, and the job's completion with it.
pub failed_job-Completes :
    (w : World) (p p' : Process) (c : Connection) (old : Option Bool) (n extra : ℕ)
    (states : ℕ → MachineState)
    → p.steps ≡ []
    → p.reports ≡ []
    → prepare w Platform.aarch64_darwin p ≡ (ok tt, p')
    → (run_devenv w (project_dir Platform.aarch64_darwin) p').0 ≡ err
    → w.call (Call.report_complete false) ≡ true
    → c.job_result ≡ some old
    → ((k : ℕ) → k < n → turn (states k) ≡ none)
    → states n ≡ MachineState.stopped
    → Completes w p c (n + 1 + extra) states
unfolding exit_to_completion
failed_job-Completes w p p' c old n extra states s r e f sent h quiet stopped =
    let (result, reports, halted, worked) = finished w p p' s e in
    (
      result ∙ ap is_ok f,
      halted,
      stored_failure w.job_config.id (main w Platform.aarch64_darwin p).1.reports c old
          ((reports ∙ sent_failure w _ p.reports (ap is_ok f) sent r)) h,
      ap exit_of (
          wait_ends n extra states 0 VmExitStatus.success
            (λ k lt. ap (λ (j : ℕ). turn (states j)) (omega arith) ∙ quiet k lt)
            (ap (λ (j : ℕ). turn (states j)) (omega arith) ∙ stopped-turn (states n) stopped)),
    )
