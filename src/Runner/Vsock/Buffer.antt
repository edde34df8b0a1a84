-- ===== src/Runner/Vsock/Buffer.antt =====
-- runner/src/vsock.rs, `VsockWriter`: what the bounded channel keeps, drops and passes on.
use Prim.Native.String.{String}
use cloud_devenv_sh.Backend.Accounts.{Json}
use mathlib.Core.List.{append_assoc}
use cloud_devenv_sh.Base.{
  refl, List, Option, ℕ, ◌≡◌, [], ◌++◌, ◌∷◌, arith, none, Option-cases, length, some, inl, ◌≤◌, ap,
  inr, Bool-cases, ◌∙◌, ltb, sym, subst, length-append,
}
use cloud_devenv_sh.Protocol.{VsockGuestMessage, LogEntry}
use cloud_devenv_sh.Runner.Vsock.Writer.{forward, new_writer, write, VsockWriter, entry_of}
use cloud_devenv_sh.Runner.Vsock.Reporter.{JobReporter, send_log}
use cloud_devenv_sh.Runner.Vsock.Sessions.{send_logs}

-- `xs` and `ys` together are `zs`, each in its order.
pub data Merge {ℓ} {A : Type ℓ} : List A → List A → List A → Type ℓ where
  empty : Merge [] [] []
  left : {xs ys zs : List A} (a : A) → Merge xs ys zs → Merge (xs ++ a ∷ []) ys (zs ++ a ∷ [])
  right : {xs ys zs : List A} (a : A) → Merge xs ys zs → Merge xs (ys ++ a ∷ []) (zs ++ a ∷ [])

pub data Act : Type 0 where
  line : List ℕ → Act
  turn : Act

module _ (to_vec : VsockGuestMessage → Option (List ℕ)) (from_str : List ℕ → Option Json)
    (to_string : Json → String) where
  -- Lines written and turns of the task in any order, the last one first.
  abbrev pub run : JobReporter → List Act → VsockWriter
  run r [] = new_writer r
  run r (Act.line buf ∷ acts) = (write from_str to_string buf (run r acts)).0
  run r (Act.turn ∷ acts) = forward to_vec (run r acts)

  -- The entries of the lines that are JSON, in the order they were written.
  abbrev pub entries : List Act → List LogEntry
  entries [] = []
  entries (Act.turn ∷ acts) = entries acts
  entries (Act.line buf ∷ acts) =
      let before = entries acts in
      elim (from_str buf) [ none ↦ before | some v ↦ before ++ entry_of to_string v ∷ [] ]

  -- The state of the writer splits the entries into those that the reporter was given, those that wait,
  -- and those that were dropped.
  abbrev pub Splits : JobReporter → List LogEntry → VsockWriter → Type 0
  Splits r written w =
      (sent : List LogEntry) × (w.reporter ≡ send_logs to_vec sent r)
      × Merge (sent ++ w.channel) w.dropped written
      × (length w.channel ≤ 100)

  send_logs-snoc :
      (es : List LogEntry) (e : LogEntry) (r : JobReporter)
      → send_logs to_vec (es ++ e ∷ []) r ≡ (send_log to_vec e (send_logs to_vec es r)).0
  send_logs-snoc [] e r = refl
  send_logs-snoc (x ∷ es) e r = send_logs-snoc es e (send_log to_vec x r).0

  line-Splits :
      (r : JobReporter) (buf : List ℕ) (acts : List Act) (w : VsockWriter)
      → Splits r (entries acts) w
      → Splits r (entries (Act.line buf ∷ acts)) (write from_str to_string buf w).0
  unfolding write
  line-Splits r buf acts w (sent, e, m, h) = elim (Option-cases (from_str buf)) [
    | inl n ↦ rw (write, entries, n) (sent, e, m, h)
    | inr (v, p) ↦
        let entry : LogEntry = entry_of to_string v in
        elim (Bool-cases (ltb (length w.channel) 100)) [
          | inl l ↦
              rw (write, entries, p, l)
                (
                  sent,
                  e,
                  subst (λ xs. Merge xs w.dropped (entries acts ++ entry ∷ []))
                      (append_assoc sent w.channel (entry ∷ [])) (left entry m),
                  ground (arith, l, length-append w.channel (entry ∷ [])),
                )
          | inr l ↦ rw (write, entries, p, l) (sent, e, right entry m, h)
        ]
  ]

  turn-Splits :
      (r : JobReporter) (written : List LogEntry) (w : VsockWriter)
      → Splits r written w
      → Splits r written (forward to_vec w)
  unfolding forward
  turn-Splits r written w (sent, e, m, h) =
      elim w.channel
          as (λ channel.
            Merge (sent ++ channel) w.dropped written
            → length channel ≤ 100
            → Splits r written (forward to_vec (record w { channel = channel }))) [
              | [] ↦ λ m' h'. (sent, e, m', h')
              | entry ∷ rest ↦ λ m' h'. (
                sent ++ entry ∷ [],
                ap (λ (q : JobReporter). (send_log to_vec entry q).0) e
                    ∙ sym (send_logs-snoc sent entry r),
                subst (λ xs. Merge xs w.dropped written) (sym (append_assoc sent (entry ∷ []) rest))
                    m',
                omega (arith, h'),
              )
            ]
        m h

  -- However the lines that are written and the turns of the task are ordered, the entries of the lines that
  -- are JSON are split into those that the reporter was given, in order, those that wait in the channel,
  -- which are the next, and those that were dropped. No more than 100 wait.
  pub run-Splits : (r : JobReporter) (acts : List Act) → Splits r (entries acts) (run r acts)
  unfolding new_writer
  run-Splits r [] = ([], refl, empty, omega arith)
  run-Splits r (Act.line buf ∷ acts) = line-Splits r buf acts (run r acts) (run-Splits r acts)
  run-Splits r (Act.turn ∷ acts) = turn-Splits r (entries acts) (run r acts) (run-Splits r acts)
