-- ===== src/Runner/Vsock/Guests.antt =====
-- runner/src/vsock.rs, `handle_guest_connection`.
use cloud_devenv_sh.Base.{
  ℕ, [], ◌∷◌, none, some, refl, List, Option, Bool, inr, ◌==◌, if◌then◌else◌, inl, ◌≡◌, Bool-cases,
  ap, false, ◌&&◌, ◌++◌, ==_iff, All, arith, ◌⊎◌, ◌||◌, true,
}
use cloud_devenv_sh.Runner.Vsock.{
  handle_guest_connection, receive_result, store_result, Connection, is_ready, tail,
}
use cloud_devenv_sh.Protocol.{VsockGuestMessage, LogEntry}

-- The entries of a job's log in what was read.
abbrev pub entries_of : ℕ → List (Option VsockGuestMessage) → List LogEntry
entries_of job_id [] = []
entries_of job_id (m ∷ ms) =
    let rest = entries_of job_id ms in
    elim m [
      | some (VsockGuestMessage.log id entry) ↦ if id == job_id then entry ∷ rest else rest
      | _ ↦ rest
    ]

-- A read that neither fails nor ends the job.
abbrev pub IsQuiet : ℕ → Option VsockGuestMessage → Type 0
IsQuiet job_id none = ⊥
IsQuiet job_id (some (VsockGuestMessage.complete id b)) = (id == job_id) ≡ false
IsQuiet job_id (some m) = Unit

-- What was read splits at the completion of the job, or at the read that failed, if there is one.
abbrev pub EndsAt : ℕ → List (Option VsockGuestMessage) → Option Bool × List LogEntry → Type 0
EndsAt job_id ms outcome =
    ((b : Bool) × (xs : List (Option VsockGuestMessage)) × (ys : List (Option VsockGuestMessage))
      × (ms ≡ xs ++ some (VsockGuestMessage.complete job_id b) ∷ ys)
      × All (IsQuiet job_id) xs
      × (outcome ≡ (some b, entries_of job_id xs)))
    ⊎ ((xs : List (Option VsockGuestMessage)) × (ys : List (Option VsockGuestMessage)) × ((ms ≡ xs)
          ⊎ (ms ≡ xs ++ none ∷ ys))
        × All (IsQuiet job_id) xs
        × (outcome ≡ (none, entries_of job_id xs)))

-- One more quiet read in front.
quiet-EndsAt :
    (job_id : ℕ) (m : Option VsockGuestMessage) (ms : List (Option VsockGuestMessage))
    → IsQuiet job_id m
    → ((result : Option Bool) (xs : List (Option VsockGuestMessage))
        → receive_result job_id ms ≡ (result, entries_of job_id xs)
        → receive_result job_id (m ∷ ms) ≡ (result, entries_of job_id (m ∷ xs)))
    → EndsAt job_id ms (receive_result job_id ms)
    → EndsAt job_id (m ∷ ms) (receive_result job_id (m ∷ ms))
quiet-EndsAt job_id m ms q h (inl (b, xs, ys, e, a, r)) =
    inl (b, m ∷ xs, ys, ap (λ l. m ∷ l) e, (q, a), h (some b) xs r)
quiet-EndsAt job_id m ms q h (inr (xs, ys, inl e, a, r)) =
    inr (m ∷ xs, ys, inl (ap (λ l. m ∷ l) e), (q, a), h none xs r)
quiet-EndsAt job_id m ms q h (inr (xs, ys, inr e, a, r)) =
    inr (m ∷ xs, ys, inr (ap (λ l. m ∷ l) e), (q, a), h none xs r)

-- The loop ends with a result at the first completion of its own job, if no read failed before, and
-- without one at the first read that failed; in both cases it passed on the log entries of its own job
-- up to there, in order, and no other.
pub receive_result-EndsAt :
    (job_id : ℕ) (ms : List (Option VsockGuestMessage))
    → EndsAt job_id ms (receive_result job_id ms)
unfolding receive_result
receive_result-EndsAt job_id [] = inr ([], [], inl refl, tt, refl)
receive_result-EndsAt job_id (none ∷ ms) = inr ([], ms, inr refl, tt, refl)
receive_result-EndsAt job_id (some (VsockGuestMessage.ready id) ∷ ms) =
    quiet-EndsAt job_id (some (VsockGuestMessage.ready id)) ms tt (λ result xs r. r)
      (receive_result-EndsAt job_id ms)
receive_result-EndsAt job_id (some (VsockGuestMessage.complete id b) ∷ ms) =
    elim (Bool-cases (id == job_id)) [
      | inl e ↦ inl (
        b,
        [],
        ms,
        ap (λ k. some (VsockGuestMessage.complete k b) ∷ ms) ((==_iff id job_id).0 e),
        tt,
        ground (arith, e),
      )
      | inr e ↦
          quiet-EndsAt job_id (some (VsockGuestMessage.complete id b)) ms e
            (λ result xs r. ground (arith, e, r)) (receive_result-EndsAt job_id ms)
    ]
receive_result-EndsAt job_id (some (VsockGuestMessage.log id entry) ∷ ms) =
    quiet-EndsAt job_id (some (VsockGuestMessage.log id entry)) ms tt
      (λ result xs r. ground (arith, r)) (receive_result-EndsAt job_id ms)

-- The shared state after a result: it changes only if there is one, and a state to put it in.
abbrev pub stored : Bool → Option Bool → Option (Option Bool) → Option (Option Bool)
stored true (some b) (some old) = some (some b)
stored _ _ state = state

abbrev pub is_some : Option Bool → Bool
is_some none = false
is_some (some b) = true

-- A connection is served exactly if the configuration was written and the first message says that the
-- guest is ready for this very job. It then passes on the log of the job; and if the loop got a result,
-- it stores it and has the server shut down. Else the shared state, the server and the log are as
-- before.
pub result_stored :
    (job_id : ℕ) (written : Bool) (ms : List (Option VsockGuestMessage)) (c d : Connection)
    (served : Bool)
    → handle_guest_connection job_id written ms c ≡ (d, served)
    → (served ≡ (written && is_ready job_id ms))
      × (d.job_result ≡ stored served (receive_result job_id (tail ms)).0 c.job_result)
      × (d.notified ≡ ((served && is_some (receive_result job_id (tail ms)).0) || c.notified))
      × (d.logs ≡ (if served then c.logs ++ (receive_result job_id (tail ms)).1 else c.logs))
unfolding handle_guest_connection store_result
result_stored job_id written ms c d served h = ground (arith, h)
