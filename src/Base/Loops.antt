-- ===== src/Base/Loops.antt =====
-- Loops that look at something turn by turn until it says that they are over.
use Prim.Native.Nat.{ℕ, zero, suc, ◌+◌, ◌<◌}
use mathlib.Core.Path.{◌≡◌, ap, ◌∙◌}
use mathlib.Core.Option.{Option, none, some}
use native.Mathlib.Omega.{arith}

module _ {ℓ} {A : Type ℓ} where
  -- From the turn `i` on, for at most `fuel` turns; `none` when the loop still goes on then.
  unfoldable pub poll : ℕ → (ℕ → Option A) → ℕ → Option A
  poll zero turn i = none
  poll (suc fuel) turn i =
      let rest = poll fuel turn (i + 1) in elim (turn i) [ none ↦ rest | some a ↦ some a ]

  pub poll_returns :
      (n extra : ℕ) (turn : ℕ → Option A) (i : ℕ) (a : A)
      → ((k : ℕ) → k < n → turn (i + k) ≡ none)
      → turn (i + n) ≡ some a
      → poll (n + 1 + extra) turn i ≡ some a
  unfolding poll
  poll_returns zero extra turn i a quiet h = ground (arith, h)
  poll_returns (suc n) extra turn i a quiet h =
      ap (λ (fuel : ℕ). poll fuel turn i) one_more
      ∙ ground (arith, poll_returns n extra turn (i + 1) a later at_end, first)
    where
      one_more : suc n + 1 + extra ≡ suc (n + 1 + extra)
      one_more = omega arith

      first : turn i ≡ none
      first = ap turn (omega arith) ∙ quiet 0 (omega arith)

      later : (k : ℕ) → k < n → turn (i + 1 + k) ≡ none
      later k lt = ap turn (omega arith) ∙ quiet (suc k) (omega arith)

      at_end : turn (i + 1 + n) ≡ some a
      at_end = ap turn (omega arith) ∙ h
