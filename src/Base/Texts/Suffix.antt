-- ===== src/Base/Texts/Suffix.antt =====
-- Laws of the suffixes of texts, of lower case, and of the numbers that digits stand for.
use cloud_devenv_sh.Base.{
  ℕ, All, ◌≡◌, true, false, refl, arith, [], ◌∷◌, ◌++◌, ap, some, ◌*◌, ◌<◌, ◌==◌, ◌≤◌, ◌+◌, ◌^◌,
  if◌then◌else◌, ◌-◌, ltb, none,
}
use cloud_devenv_sh.Base.Texts.{
  Text, ends_with, parse_digits, parse_u32, text_eq, to_lowercase, trim_end_matches, is_digit,
  is_repeated, is_whitespace, lower,
}
use cloud_devenv_sh.Base.Texts.Trim.{IsDigits, IsPadding}

pub lower-padding : (p : Text) → IsPadding p → to_lowercase p ≡ p
unfolding to_lowercase is_whitespace
lower-padding [] h = refl
lower-padding (c ∷ p) h = ground (arith, h.0, lower-padding p h.1)

pub lower-digits : (s : Text) → IsDigits s → to_lowercase s ≡ s
unfolding to_lowercase is_digit
lower-digits [] h = refl
lower-digits (c ∷ s) h = ground (arith, h.0, lower-digits s h.1)

pub lower-append : (s t : Text) → to_lowercase (s ++ t) ≡ to_lowercase s ++ to_lowercase t
unfolding to_lowercase
lower-append [] t = refl
lower-append (c ∷ s) t = ap (λ (r : Text). lower c ∷ r) (lower-append s t)

text_eq_refl : (s : Text) → text_eq s s ≡ true
unfolding text_eq
text_eq_refl [] = refl
text_eq_refl (c ∷ s) = ground (arith, text_eq_refl s)

text_eq_longer : (s t : Text) (c : ℕ) → text_eq (s ++ c ∷ t) [] ≡ false
unfolding text_eq
text_eq_longer [] t c = refl
text_eq_longer (x ∷ s) t c = refl

-- A text that ends in `c b` ends in `a b` just where `c` is `a`.
pub ends_with-two : (s : Text) (a b c : ℕ) → ends_with (s ++ c ∷ b ∷ []) (a ∷ b ∷ []) ≡ (c == a)
unfolding ends_with text_eq
ends_with-two [] a b c = ground arith
ends_with-two (x ∷ []) a b c = ground arith
ends_with-two (x ∷ y ∷ s) a b c =
    ground (arith, ends_with-two (y ∷ s) a b c, text_eq_longer s (b ∷ []) c)

-- Where no sign before it is the first of the pattern, one copy at the end goes.
pub trim_end_matches-one :
    (s : Text) (a b : ℕ)
    → All (λ (c : ℕ). (c == a) ≡ false) s
    → trim_end_matches a b (s ++ a ∷ b ∷ []) ≡ s
unfolding trim_end_matches is_repeated
trim_end_matches-one [] a b h = ground arith
trim_end_matches-one (x ∷ []) a b h = ground (arith, h.0, trim_end_matches-one [] a b tt)
trim_end_matches-one (x ∷ y ∷ s) a b h = ground (arith, h.0, trim_end_matches-one (y ∷ s) a b h.1)

-- What the digits stand for after the value `acc`, however large.
abbrev pub value_from : ℕ → Text → ℕ
value_from acc [] = acc
value_from acc (c ∷ cs) = value_from (acc * 10 + (c - b'0')) cs

value_from-le : (acc : ℕ) (s : Text) → acc ≤ value_from acc s
value_from-le acc [] = omega arith
value_from-le acc (c ∷ cs) = omega (arith, value_from-le (acc * 10 + (c - b'0')) cs)

pub parse_digits_exact :
    (acc : ℕ) (s : Text)
    → IsDigits s
    → acc < 2 ^ 32
    → parse_digits acc s
      ≡ (if ltb (value_from acc s) (2 ^ 32) then some (value_from acc s) else none)
unfolding parse_digits
parse_digits_exact acc [] h lt = ground arith
parse_digits_exact acc (c ∷ cs) h lt = ground (
  arith,
  h.0,
  parse_digits_exact (acc * 10 + (c - b'0')) cs h.1,
  value_from-le (acc * 10 + (c - b'0')) cs,
)

pub parse_digits-bound :
    (acc n : ℕ) (s : Text) → acc < 2 ^ 32 → parse_digits acc s ≡ some n → n < 2 ^ 32
unfolding parse_digits
parse_digits-bound acc n [] lt h = ground arith
parse_digits-bound acc n (c ∷ cs) lt h =
    ground (arith, parse_digits-bound (acc * 10 + (c - b'0')) n cs)

pub parse_u32-bound : (n : ℕ) (s : Text) → parse_u32 s ≡ some n → n < 2 ^ 32
unfolding parse_u32
parse_u32-bound n [] h = cc
parse_u32-bound n (c ∷ []) h = ground (arith, parse_digits-bound 0 n (c ∷ []))
parse_u32-bound n (c ∷ d ∷ ds) h =
    ground (arith, parse_digits-bound 0 n (c ∷ d ∷ ds), parse_digits-bound 0 n (d ∷ ds))
