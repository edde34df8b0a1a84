-- ===== src/Runner/Linux/Waiting.antt =====
-- runner/src/vm_impl/linux.rs, `wait`.
use cloud_devenv_sh.Base.Loops.{poll_returns}
use cloud_devenv_sh.Base.{
  ℕ, none, some, ◌+◌, ◌<◌, ◌≡◌, Option, Bool, true, false, ◌⊎◌, inl, inr, refl, ◌==◌,
}
use cloud_devenv_sh.Runner.Linux.{wait, turn, Poll, Waited, TryWait}
use cloud_devenv_sh.Runner.Vms.{VmExitStatus}

-- The guest has reported nothing, and the process runs.
abbrev pub IsQuiet : Poll → Type 0
IsQuiet p = (p.job_result ≡ none) × (p.process ≡ TryWait.running)

-- What the guest reported, after the machine was shut down.
abbrev pub of_report : Bool → Waited
of_report true = Waited.status VmExitStatus.success true
of_report false = Waited.status VmExitStatus.failure true

-- The process ended: well only with the code 0, and by a signal never.
abbrev pub IsOfProcess : Option ℕ → Waited → Type 0
IsOfProcess none w = w ≡ Waited.status VmExitStatus.failure false
IsOfProcess (some c) w =
    ((c ≡ 0) × (w ≡ Waited.status VmExitStatus.success false))
    ⊎ (((c == 0) ≡ false) × (w ≡ Waited.status VmExitStatus.failure false))

-- The end that a turn finds. A report of the guest comes before the process.
abbrev pub FindsEnd : Poll → Waited → Type 0
FindsEnd p w =
    ((success : Bool) × (p.job_result ≡ some success) × (w ≡ of_report success))
    ⊎ ((p.job_result ≡ none)
        × (((code : Option ℕ) × (p.process ≡ TryWait.ended code) × IsOfProcess code w)
            ⊎ ((p.process ≡ TryWait.wait_failed) × (w ≡ Waited.failed))))

turn_quiet : (p : Poll) → IsQuiet p → turn p ≡ none
unfolding turn
turn_quiet p (r, q) = rw (turn, r, q) refl

turn_end : (p : Poll) (w : Waited) → FindsEnd p w → turn p ≡ some w
unfolding turn
turn_end p w (inl (true, r, e)) = rw (turn, r, e) refl
turn_end p w (inl (false, r, e)) = rw (turn, r, e) refl
turn_end p w (inr (r, inl (none, q, e))) = rw (turn, r, q, e) refl
turn_end p w (inr (r, inl (some c, q, inl (z, e)))) = rw (turn, r, q, z, e) refl
turn_end p w (inr (r, inl (some c, q, inr (z, e)))) = rw (turn, r, q, z, e) refl
turn_end p w (inr (r, inr (q, e))) = rw (turn, r, q, e) refl

-- The loop ends, however long it may run, at the first turn, counted from the turn `i`, that finds an
-- end, and with that end: the guest's report, after a shutdown, where there is one, and else how the
-- process ended, or the failure to wait for it.
pub wait_returns :
    (n extra : ℕ) (polls : ℕ → Poll) (i : ℕ) (w : Waited)
    → ((k : ℕ) → k < n → IsQuiet (polls (i + k)))
    → FindsEnd (polls (i + n)) w
    → wait (n + 1 + extra) polls i ≡ some w
unfolding wait
wait_returns n extra polls i w quiet h =
    poll_returns n extra (λ (j : ℕ). turn (polls j)) i w
      (λ k lt. turn_quiet (polls (i + k)) (quiet k lt)) (turn_end (polls (i + n)) w h)
