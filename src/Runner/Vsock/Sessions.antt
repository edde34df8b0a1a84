-- ===== src/Runner/Vsock/Sessions.antt =====
-- runner/src/vsock.rs: a whole connection, the guest's reports as the host receives them.
use cloud_devenv_sh.Protocol.{VsockGuestMessage, LogEntry, VsockHostMessage, JobConfig}
use mathlib.Core.List.{append-nil, append_assoc}
use cloud_devenv_sh.Base.{
  zero, Option, List, ℕ, ◌∷◌, ◌≡◌, [], some, true, length, none, ◌++◌, ◌<◌, ◌^◌, subst, All, map,
  suc, sym, arith, refl, ◌∙◌, Bool, ◌+◌, ==_refl, ap,
}
use cloud_devenv_sh.Runner.Vsock.Reporter.{
  JobReporter, send, incoming, report_complete, send_log, receive_config_from_host,
}
use cloud_devenv_sh.Runner.Vsock.{
  write_message, read_message, read_exact, receive_result, Connection, handle_guest_connection,
  store_result,
}
use cloud_devenv_sh.Runner.Vsock.Framing.{read_message-write_message}

-- What a guest says in a whole session.
abbrev pub said : ℕ → List LogEntry → Bool → List VsockGuestMessage
said id [] success = VsockGuestMessage.complete id success ∷ []
said id (entry ∷ es) success = VsockGuestMessage.log id entry ∷ said id es success

module _ (to_vec : VsockGuestMessage → Option (List ℕ)) where
  -- What the guest writes, one message after the other.
  abbrev pub send_all : List VsockGuestMessage → JobReporter → JobReporter
  send_all [] r = r
  send_all (m ∷ ms) r = send_all ms (send to_vec m r).0

  abbrev pub send_logs : List LogEntry → JobReporter → JobReporter
  send_logs [] r = r
  send_logs (entry ∷ es) r = send_logs es (send_log to_vec entry r).0

  send-job_id : (m : VsockGuestMessage) (r : JobReporter) → (send to_vec m r).0.job_id ≡ r.job_id
  unfolding send
  send-job_id m r = ground arith

  send_all-said :
      (es : List LogEntry) (success : Bool) (r : JobReporter)
      → (report_complete to_vec success (send_logs es r)).0 ≡ send_all (said r.job_id es success) r
  unfolding report_complete send_log
  send_all-said [] success r = refl
  send_all-said (entry ∷ es) success r =
      let m : VsockGuestMessage = VsockGuestMessage.log r.job_id entry in
      subst
        (λ id.
          (report_complete to_vec success (send_logs es (send to_vec m r).0)).0
          ≡ send_all (said id es success) (send to_vec m r).0)
        (send-job_id m r) (send_all-said es success (send to_vec m r).0)

module _ (to_vec : VsockGuestMessage → Option (List ℕ))
    (from_slice : List ℕ → Option VsockGuestMessage) where
  -- The coding reads back this message, which fits the frame.
  abbrev pub IsCoded : VsockGuestMessage → Type 0
  IsCoded m =
      (bytes : List ℕ) × (to_vec m ≡ some bytes)
      × (from_slice bytes ≡ some m)
      × (length bytes < 2 ^ 32)

  same_stream : {m : Option (List ℕ)} {xs ys : List ℕ} → m ≡ some xs → m ≡ some ys → xs ≡ ys
  same_stream e f = cc

  send_written :
      (m : VsockGuestMessage) (r : JobReporter) (bytes : List ℕ)
      → write_message to_vec m ≡ some bytes
      → r.connected ≡ true
      → send to_vec m r ≡ (record r { stream = r.stream ++ bytes }, true)
  unfolding send
  send_written m r bytes e c = rw (send, e, c) refl

  incoming_empty : (fuel : ℕ) → incoming from_slice (suc fuel) [] ≡ none ∷ []
  unfolding incoming read_message read_exact
  incoming_empty fuel = refl

  incoming-read :
      (m : VsockGuestMessage) (stream rest : List ℕ) (fuel : ℕ)
      → read_message from_slice stream ≡ some (m, rest)
      → incoming from_slice (suc fuel) stream ≡ some m ∷ incoming from_slice fuel rest
  unfolding incoming
  incoming-read m stream rest fuel e = rw (incoming, e) refl

  send-frame :
      (m : VsockGuestMessage) (r : JobReporter)
      → IsCoded m
      → r.connected ≡ true
      → (bytes : List ℕ) × (write_message to_vec m ≡ some bytes)
        × (send to_vec m r ≡ (record r { stream = r.stream ++ bytes }, true))
        × ((rest : List ℕ) → read_message from_slice (bytes ++ rest) ≡ some (m, rest))
  unfolding send
  send-frame m r (bytes, e, f, h) c =
      let (stream, written, _) = read_message-write_message to_vec from_slice m bytes [] e f h in
      (
        stream,
        written,
        send_written m r stream written c,
        λ rest.
            let (stream', written', back) =
              read_message-write_message to_vec from_slice m bytes rest e f h in
            subst (λ s. read_message from_slice (s ++ rest) ≡ some (m, rest))
              (same_stream written' written) back,
      )

  -- What is sent arrives, message by message, and then the read that fails.
  incoming-send_all :
      (ms : List VsockGuestMessage) (r : JobReporter) (fuel : ℕ)
      → All IsCoded ms
      → r.connected ≡ true
      → length ms < fuel
      → (bytes : List ℕ) × ((send_all to_vec ms r).stream ≡ r.stream ++ bytes)
        × (incoming from_slice fuel bytes ≡ map some ms ++ none ∷ [])
  unfolding incoming
  incoming-send_all [] r zero a c h = elim h [ ]
  incoming-send_all (m ∷ ms) r zero a c h = elim h [ ]
  incoming-send_all [] r (suc fuel) a c h = ([], sym (append-nil r.stream), incoming_empty fuel)
  incoming-send_all (m ∷ ms) r (suc fuel) (k, a) c h =
      let (bytes, e, s, back) = send-frame m r k c in
      let (more, f, g) =
        incoming-send_all ms (record r { stream = r.stream ++ bytes }) fuel a c
          (omega (arith, h)) in
      (
        bytes ++ more,
        ap (λ (p : JobReporter × Bool). (send_all to_vec ms p.0).stream) s
            ∙ (f ∙ append_assoc r.stream bytes more),
        incoming-read m (bytes ++ more) more fuel (back more)
            ∙ ap (λ (l : List (Option VsockGuestMessage)). some m ∷ l) g,
      )

receive_result-said :
    (id : ℕ) (es : List LogEntry) (success : Bool)
    → receive_result id (map some (said id es success) ++ none ∷ []) ≡ (some success, es)
unfolding receive_result
receive_result-said id [] success = ground arith
receive_result-said id (entry ∷ es) success = ground (arith, receive_result-said id es success)

length-said :
    (id : ℕ) (es : List LogEntry) (success : Bool) → length (said id es success) ≡ length es + 1
length-said id [] success = refl
length-said id (entry ∷ es) success = omega (arith, length-said id es success)

served :
    (id : ℕ) (es : List LogEntry) (success : Bool) (c : Connection)
    → handle_guest_connection id true
        (map some (VsockGuestMessage.ready id ∷ said id es success) ++ none ∷ [])
        c
      ≡ (store_result (some success) es c, true)
unfolding handle_guest_connection
served id es success c = rw (receive_result-said id es success) (ground (arith, ==_refl id))

module _ (host_to_vec : VsockHostMessage → Option (List ℕ))
    (host_from_slice : List ℕ → Option VsockHostMessage)
    (to_vec : VsockGuestMessage → Option (List ℕ))
    (from_slice : List ℕ → Option VsockGuestMessage) where
  -- A session: the host writes the configuration and serves the connection, to a guest that reports the
  -- entries and then the success.
  abbrev pub Serves : JobConfig → List LogEntry → Bool → Connection → Type 0
  Serves config es success c =
      (host : List ℕ) × (reporter : JobReporter) × (write_message host_to_vec
          (VsockHostMessage.job_config config)
        ≡ some host)
      × (receive_config_from_host to_vec host_from_slice true host true ≡ some (config, reporter))
      × (handle_guest_connection config.id true
            (incoming from_slice (length es + 3)
              (report_complete to_vec success (send_logs to_vec es reporter)).0.stream)
            c
          ≡ (store_result (some success) es c, true))

  -- A guest that connects, reports its log and then its completion is served: it gets the configuration
  -- that the host sent, byte for byte over the framing, the host gets the log in order, and it stores
  -- the success and has the server shut down. The coding has to read back each message of the session,
  -- and each has to fit its frame.
  pub session-Serves :
      (config : JobConfig) (bytes : List ℕ) (es : List LogEntry) (success : Bool) (c : Connection)
      → host_to_vec (VsockHostMessage.job_config config) ≡ some bytes
      → host_from_slice bytes ≡ some (VsockHostMessage.job_config config)
      → length bytes < 2 ^ 32
      → IsCoded to_vec from_slice (VsockGuestMessage.ready config.id)
      → All (IsCoded to_vec from_slice) (said config.id es success)
      → Serves config es success c
  unfolding receive_config_from_host
  session-Serves config bytes es success c e f h k a =
      let (host, written, back) =
        read_message-write_message host_to_vec host_from_slice (VsockHostMessage.job_config config)
          bytes [] e f h in
      let opened : JobReporter = record { job_id = config.id; stream = []; connected = true } in
      let ready : VsockGuestMessage = VsockGuestMessage.ready config.id in
      let (frame, sent, s, arrives) = send-frame to_vec from_slice ready opened k refl in
      let reporter : JobReporter = record {
        job_id = config.id;
        stream = frame;
        connected = true;
      } in
      let (all, e', g) =
        incoming-send_all to_vec from_slice (ready ∷ said config.id es success) opened
          (length es + 3) (k, a) refl (omega (arith, length-said config.id es success)) in
      (
        host,
        reporter,
        written,
        rw
            (
              subst
                  (λ l.
                    read_message host_from_slice l ≡ some (VsockHostMessage.job_config config, []))
                  (append-nil host) back,
              s,
              receive_config_from_host,
            )
            refl,
        ap
              (λ (l : List ℕ).
                handle_guest_connection config.id true (incoming from_slice (length es + 3) l) c)
              (ap (λ (r : JobReporter). r.stream) (send_all-said to_vec es success reporter)
                ∙ (sym (
                      ap
                        (λ (p : JobReporter × Bool).
                          (send_all to_vec (said config.id es success) p.0).stream)
                        s)
                    ∙ e'))
            ∙ (ap
                  (λ (l : List (Option VsockGuestMessage)).
                    handle_guest_connection config.id true l c)
                  g
                ∙ served config.id es success c),
      )
