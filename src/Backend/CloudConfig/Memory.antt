-- ===== src/Backend/CloudConfig/Memory.antt =====
-- backend/src/runner/cloudconfig.rs, `parse_memory`.
use cloud_devenv_sh.Base.{
  ℕ, All, ◌≡◌, true, false, arith, [], ◌∷◌, ◌++◌, ap, ◌∙◌, Option, if◌then◌else◌, ◌==◌, some, none,
  ◌≤◌, All-append, ltb, All-imp, ◌^◌, ◌*◌, ◌%◌, ◌⊎◌, inl, inr, ◌<◌,
}
use cloud_devenv_sh.Base.Texts.{
  Text, is_whitespace, trim, lower, is_digit, parse_u32, trim_end, to_lowercase, trim_end_matches,
}
use cloud_devenv_sh.Base.Texts.Trim.{
  IsPadding, IsDigits, trim_start-digit, trim_start-padding, trim_end-padding, trim_end-digits,
  trim_end-two,
}
use cloud_devenv_sh.Backend.CloudConfig.{parse_memory, Parsed, ConfigError, num_or_invalid}
use cloud_devenv_sh.Base.Texts.Suffix.{
  lower-append, value_from, lower-digits, lower-padding, parse_digits_exact, ends_with-two,
  trim_end_matches-one, parse_u32-bound,
}

-- The number of megabytes that a unit stands for, of its first letter.
abbrev pub unit_of : ℕ → Option ℕ
unit_of c = if c == b'g' then some 1024 else if c == b'm' then some 1 else none

-- The text that the digits `d ds` make with a unit `u b`, and white space around and between.
abbrev pub memory_text : Text → ℕ → Text → Text → ℕ → ℕ → Text → Text
memory_text before d ds between u b after = before ++ ((d ∷ ds ++ between) ++ u ∷ b ∷ [] ++ after)

lower_b-not_white : (b : ℕ) → lower b ≡ b'b' → is_whitespace b ≡ false
unfolding is_whitespace
lower_b-not_white b h = ground arith

trimmed :
    (before : Text) (d : ℕ) (ds between : Text) (u b : ℕ) (after : Text)
    → IsPadding before
    → is_digit d ≡ true
    → IsPadding after
    → lower b ≡ b'b'
    → trim (memory_text before d ds between u b after) ≡ (d ∷ ds ++ between) ++ u ∷ b ∷ []
unfolding trim
trimmed before d ds between u b after hb hd ha hu =
    ap trim_end (
      trim_start-padding before (core ++ after) hb
      ∙ trim_start-digit d (((ds ++ between) ++ u ∷ b ∷ []) ++ after) hd)
    ∙ trim_end-padding core after ha
    ∙ trim_end-two (d ∷ ds ++ between) u b (lower_b-not_white b hu)
  where
    core : Text
    core = (d ∷ ds ++ between) ++ u ∷ b ∷ []

-- The number and the white space after it, in lower case and without the white space.
module _ (d : ℕ) (ds between : Text) where
  number-lower :
      IsDigits (d ∷ ds) → IsPadding between → to_lowercase (d ∷ ds ++ between) ≡ d ∷ ds ++ between
  number-lower hd hp =
      lower-append (d ∷ ds) between
      ∙ ap (λ (s : Text). s ++ to_lowercase between) (lower-digits (d ∷ ds) hd)
      ∙ ap (λ (s : Text). (d ∷ ds) ++ s) (lower-padding between hp)

  number-trim : IsDigits (d ∷ ds) → IsPadding between → trim (d ∷ ds ++ between) ≡ d ∷ ds
  unfolding trim
  number-trim hd hp =
      ap trim_end (trim_start-digit d (ds ++ between) hd.0)
      ∙ trim_end-padding (d ∷ ds) between hp
      ∙ trim_end-digits (d ∷ ds) hd

digit-no_letter : (a c : ℕ) → 97 ≤ a → is_digit c ≡ true → (c == a) ≡ false
unfolding is_digit
digit-no_letter a c le h = ground arith

padding-no_letter : (a c : ℕ) → 97 ≤ a → a ≤ 122 → is_whitespace c ≡ true → (c == a) ≡ false
unfolding is_whitespace
padding-no_letter a c le le' h = ground arith

number-no_letter :
    (a d : ℕ) (ds between : Text)
    → 97 ≤ a
    → a ≤ 122
    → IsDigits (d ∷ ds)
    → IsPadding between
    → All (λ (c : ℕ). (c == a) ≡ false) (d ∷ ds ++ between)
number-no_letter a d ds between le le' hd hp =
    All-append (λ (c : ℕ). (c == a) ≡ false) (d ∷ ds) between
      (All-imp (λ (c : ℕ). is_digit c ≡ true) (λ (c : ℕ). (c == a) ≡ false) (d ∷ ds)
        (λ (c : ℕ) (h : is_digit c ≡ true). digit-no_letter a c le h) hd)
      (All-imp (λ (c : ℕ). is_whitespace c ≡ true) (λ (c : ℕ). (c == a) ≡ false) between
        (λ (c : ℕ) (h : is_whitespace c ≡ true). padding-no_letter a c le le' h) hp)

parse_u32-digits :
    (d : ℕ) (ds : Text)
    → IsDigits (d ∷ ds)
    → parse_u32 (d ∷ ds)
      ≡ (if ltb (value_from 0 (d ∷ ds)) (2 ^ 32) then some (value_from 0 (d ∷ ds)) else none)
unfolding parse_u32 is_digit
parse_u32-digits d ds h = ground (arith, h.0, parse_digits_exact 0 (d ∷ ds) h)

gb_outcome :
    (n : ℕ)
    → num_or_invalid (if ltb n (2 ^ 32) then some n else none) (λ (num : ℕ). num * 1024 % 2 ^ 32)
      ≡ (if ltb n (2 ^ 32)
          then Parsed.ok (n * 1024 % 2 ^ 32)
          else Parsed.err ConfigError.invalid_memory_size)
gb_outcome n = ground arith

mb_outcome :
    (n : ℕ)
    → num_or_invalid (if ltb n (2 ^ 32) then some n else none) (λ (num : ℕ). num) ≡ (
        if ltb n (2 ^ 32)
        then Parsed.ok (n * 1 % 2 ^ 32)
        else Parsed.err ConfigError.invalid_memory_size)
mb_outcome n = ground arith

-- What a memory text means: digits, white space, a unit in either case, gb or mb, and white space
-- around them stand for the number times the unit, reduced to 32 bits as the product is; digits that
-- stand for a number of more than 32 bits are refused.
pub parse_memory-numeral :
    (before : Text) (d : ℕ) (ds between : Text) (u b : ℕ) (after : Text) (k : ℕ)
    → IsPadding before
    → IsDigits (d ∷ ds)
    → IsPadding between
    → IsPadding after
    → lower b ≡ b'b'
    → unit_of (lower u) ≡ some k
    → parse_memory (memory_text before d ds between u b after) ≡ (
        if ltb (value_from 0 (d ∷ ds)) (2 ^ 32)
        then Parsed.ok (value_from 0 (d ∷ ds) * k % 2 ^ 32)
        else Parsed.err ConfigError.invalid_memory_size)
unfolding parse_memory to_lowercase
parse_memory-numeral before d ds between u b after k hb hd hp ha hu hk = elim letters [
  | inl (gb, scale) ↦
      rw
        (
          parse_memory,
          lowered,
          gb,
          ends_with-two number b'g' b'b' b'g',
          trim_end_matches-one number b'g' b'b' (no_letter b'g' (omega arith) (omega arith)),
          number-trim d ds between hd hp,
          parse_u32-digits d ds hd,
          scale,
        )
        (gb_outcome (value_from 0 (d ∷ ds)))
  | inr (mb, scale) ↦
      rw
        (
          parse_memory,
          lowered,
          mb,
          ends_with-two number b'g' b'b' b'm',
          ends_with-two number b'm' b'b' b'm',
          trim_end_matches-one number b'm' b'b' (no_letter b'm' (omega arith) (omega arith)),
          number-trim d ds between hd hp,
          parse_u32-digits d ds hd,
          scale,
        )
        (mb_outcome (value_from 0 (d ∷ ds)))
]
  where
    number : Text
    number = d ∷ ds ++ between

    letters : ((lower u ≡ b'g') × (k ≡ 1024)) ⊎ ((lower u ≡ b'm') × (k ≡ 1))
    letters = ground (arith, hk)

    no_letter : (a : ℕ) → 97 ≤ a → a ≤ 122 → All (λ (c : ℕ). (c == a) ≡ false) number
    no_letter a le le' = number-no_letter a d ds between le le' hd hp

    lowered :
        to_lowercase (trim (memory_text before d ds between u b after))
        ≡ number ++ lower u ∷ b'b' ∷ []
    lowered =
        ap to_lowercase (trimmed before d ds between u b after hb hd.0 ha hu)
        ∙ lower-append number (u ∷ b ∷ [])
        ∙ ap (λ (s : Text). s ++ to_lowercase (u ∷ b ∷ [])) (number-lower d ds between hd hp)
        ∙ ap (λ (c : ℕ). number ++ lower u ∷ c ∷ []) hu

pub parse_memory-bound : (s : Text) (n : ℕ) → parse_memory s ≡ Parsed.ok n → n < 2 ^ 32
unfolding parse_memory
parse_memory-bound s n h =
    ground (arith, parse_u32-bound n (trim (trim_end_matches b'm' b'b' (to_lowercase (trim s)))))
