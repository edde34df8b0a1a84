-- ===== src/Runner/Vsock/Reporter.antt =====
-- runner/src/vsock.rs: the guest's end of the connection, and the stream of bytes as the host reads it.
use cloud_devenv_sh.Base.{
  suc, zero, List, ℕ, Bool, Option, [], none, false, if◌then◌else◌, not, some, ◌∷◌, ◌++◌, true,
}
use cloud_devenv_sh.Protocol.{VsockGuestMessage, LogEntry, VsockHostMessage, JobConfig}
use cloud_devenv_sh.Runner.Vsock.{write_message, read_message}

-- `stream` is what has been written; a write on a connection that is lost fails.
pub record JobReporter : Type 0 where
  pub job_id : ℕ
  pub stream : List ℕ
  pub connected : Bool

module _ (to_vec : VsockGuestMessage → Option (List ℕ)) where
  -- `write_message` on the reporter's stream, with whether it worked.
  unfoldable pub send : VsockGuestMessage → JobReporter → JobReporter × Bool
  send message r = elim (write_message to_vec message) [
    | none ↦ (r, false)
    | some bytes ↦
        if r.connected then (record r { stream = r.stream ++ bytes }, true) else (r, false)
  ]

  unfoldable pub report_complete : Bool → JobReporter → JobReporter × Bool
  unfolding send
  report_complete success r = send (VsockGuestMessage.complete r.job_id success) r

  unfoldable pub send_log : LogEntry → JobReporter → JobReporter × Bool
  unfolding send
  send_log entry r = send (VsockGuestMessage.log r.job_id entry) r

  -- `connects` is the answer of the retried connection, `host` what the host writes; then whether the
  -- connection still stands when the guest answers.
  unfoldable pub receive_config_from_host :
      (List ℕ → Option VsockHostMessage) → Bool → List ℕ → Bool → Option (JobConfig × JobReporter)
  unfolding send
  receive_config_from_host from_slice connects host stands =
      if not connects then none else elim (read_message from_slice host) [
        | none ↦ none
        | some (VsockHostMessage.job_config config, left) ↦
            let opened : JobReporter = record {
              job_id = config.id;
              stream = [];
              connected = stands;
            } in
            let (reporter, done) = send (VsockGuestMessage.ready config.id) opened in
            if done then some (config, reporter) else none
      ]

-- The reads of `handle_guest_connection` on a stream that then ends, up to the first that fails; at most
-- `fuel` of them.
unfoldable pub incoming :
    (List ℕ → Option VsockGuestMessage) → ℕ → List ℕ → List (Option VsockGuestMessage)
incoming from_slice zero stream = []
incoming from_slice (suc fuel) stream = elim (read_message from_slice stream) [
  | none ↦ none ∷ []
  | some (m, rest) ↦ some m ∷ incoming from_slice fuel rest
]
