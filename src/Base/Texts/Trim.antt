-- ===== src/Base/Texts/Trim.antt =====
-- Laws of the operations on texts: what stands between white space, and what stands before a suffix.
use cloud_devenv_sh.Base.{ℕ, All, ◌≡◌, true, false, refl, arith, [], ◌∷◌, ◌++◌}
use cloud_devenv_sh.Base.Texts.{Text, is_digit, trim_end, trim_start, is_whitespace}

abbrev pub IsPadding : Text → Type 0
IsPadding s = All (λ (c : ℕ). is_whitespace c ≡ true) s

abbrev pub IsDigits : Text → Type 0
IsDigits s = All (λ (c : ℕ). is_digit c ≡ true) s

pub trim_start-padding : (p s : Text) → IsPadding p → trim_start (p ++ s) ≡ trim_start s
unfolding trim_start
trim_start-padding [] s h = refl
trim_start-padding (c ∷ p) s h = ground (arith, h.0, trim_start-padding p s h.1)

trim_end-only_padding : (p : Text) → IsPadding p → trim_end p ≡ []
unfolding trim_end
trim_end-only_padding [] h = refl
trim_end-only_padding (c ∷ p) h = ground (arith, h.0, trim_end-only_padding p h.1)

pub trim_end-padding : (s p : Text) → IsPadding p → trim_end (s ++ p) ≡ trim_end s
unfolding trim_end
trim_end-padding [] p h = trim_end-only_padding p h
trim_end-padding (c ∷ s) p h = ground (arith, trim_end-padding s p h)

-- What ends with a sign that is no white space loses nothing.
pub trim_end-last :
    (s : Text) (c : ℕ) → is_whitespace c ≡ false → trim_end (s ++ c ∷ []) ≡ s ++ c ∷ []
unfolding trim_end
trim_end-last [] c h = ground (arith, h)
trim_end-last (d ∷ []) c h = ground (arith, h)
trim_end-last (d ∷ e ∷ s) c h = ground (arith, trim_end-last (e ∷ s) c h)

pub trim_end-two :
    (s : Text) (c d : ℕ) → is_whitespace d ≡ false → trim_end (s ++ c ∷ d ∷ []) ≡ s ++ c ∷ d ∷ []
unfolding trim_end
trim_end-two [] c d h = trim_end-last (c ∷ []) d h
trim_end-two (x ∷ []) c d h = ground (arith, h)
trim_end-two (x ∷ y ∷ s) c d h = ground (arith, trim_end-two (y ∷ s) c d h)

digit_not_white : (c : ℕ) → is_digit c ≡ true → is_whitespace c ≡ false
unfolding is_digit is_whitespace
digit_not_white c h = ground arith

pub trim_end-digits : (s : Text) → IsDigits s → trim_end s ≡ s
unfolding trim_end
trim_end-digits [] h = refl
trim_end-digits (c ∷ s) h = ground (arith, digit_not_white c, h.0, trim_end-digits s h.1)

pub trim_start-digit : (c : ℕ) (s : Text) → is_digit c ≡ true → trim_start (c ∷ s) ≡ c ∷ s
unfolding trim_start
trim_start-digit c s h = ground (arith, digit_not_white c)
