-- ===== src/Base/Texts.antt =====
-- The operations of Rust's `str` that the program calls, over the code points of a text.
pub mod Codes
pub mod Trim
pub mod Suffix
use Prim.Native.Nat.{ℕ, zero, suc, ◌+◌, ◌-◌, ◌*◌, ◌^◌}
use mathlib.Core.Path.{◌≡◌, refl}
use mathlib.Core.Bool.{Bool, true, false, ◌&&◌, ◌||◌}
use mathlib.Core.Option.{Option, none, some}
use mathlib.Core.List.{List, [], ◌∷◌, ◌++◌, map}
use cloud_devenv_sh.Base.Tests.{◌==◌, leb, ltb, if◌then◌else◌}
use cloud_devenv_sh.Base.{suc}

abbrev pub Text : Type 0
Text = List ℕ

unfoldable pub text_eq : Text → Text → Bool
text_eq [] [] = true
text_eq (c ∷ cs) (d ∷ ds) = c == d && text_eq cs ds
text_eq _ _ = false

-- `char::is_whitespace`: the code points with the property White_Space.
unfoldable pub is_whitespace : ℕ → Bool
is_whitespace c =
    leb 9 c && leb c 13
    || c == 32
    || c == 133
    || c == 160
    || c == 5760
    || leb 8192 c && leb c 8202
    || c == 8232
    || c == 8233
    || c == 8239
    || c == 8287
    || c == 12288

unfoldable pub trim_start : Text → Text
trim_start [] = []
trim_start (c ∷ cs) = if is_whitespace c then trim_start cs else c ∷ cs

unfoldable pub trim_end : Text → Text
trim_end [] = []
trim_end (c ∷ cs) =
    let rest = trim_end cs in
    elim rest [ [] ↦ if is_whitespace c then [] else c ∷ [] | d ∷ ds ↦ c ∷ d ∷ ds ]

unfoldable pub trim : Text → Text
trim s = trim_end (trim_start s)

-- `char::to_lowercase`, on the letters A to Z. Of the other code points none becomes a digit, a sign, a
-- white space, or one of g, m and b.
abbrev pub lower : ℕ → ℕ
lower c = if leb b'A' c && leb c b'Z' then c + 32 else c

unfoldable pub to_lowercase : Text → Text
to_lowercase s = map lower s

unfoldable pub ends_with : Text → Text → Bool
ends_with [] pattern = text_eq [] pattern
ends_with (c ∷ cs) pattern = text_eq (c ∷ cs) pattern || ends_with cs pattern

-- Whether a text is `a b` some number of times.
unfoldable pub is_repeated : ℕ → ℕ → Text → Bool
is_repeated a b [] = true
is_repeated a b (c ∷ []) = false
is_repeated a b (c ∷ d ∷ cs) = c == a && d == b && is_repeated a b cs

-- `trim_end_matches` for the pattern `a b`: every copy of it at the end goes.
unfoldable pub trim_end_matches : ℕ → ℕ → Text → Text
trim_end_matches a b [] = []
trim_end_matches a b (c ∷ cs) =
    let rest = trim_end_matches a b cs in if is_repeated a b (c ∷ cs) then [] else c ∷ rest

unfoldable pub is_digit : ℕ → Bool
is_digit c = leb b'0' c && leb c b'9'

-- The checked product and sum of `u32`'s `parse`, from the value `acc` on.
unfoldable pub parse_digits : ℕ → Text → Option ℕ
parse_digits acc [] = some acc
parse_digits acc (c ∷ cs) =
    let n = acc * 10 + (c - b'0') in
    let rest = parse_digits n cs in if is_digit c && ltb n (2 ^ 32) then rest else none

-- `str::parse::<u32>`; what kind of error it was is left out.
unfoldable pub parse_u32 : Text → Option ℕ
unfolding parse_digits
parse_u32 [] = none
parse_u32 (c ∷ cs) =
    if c == b'+'
    then elim cs [ [] ↦ none | d ∷ ds ↦ parse_digits 0 (d ∷ ds) ]
    else parse_digits 0 (c ∷ cs)

unfoldable pub strip_prefix : Text → Text → Option Text
strip_prefix [] s = some s
strip_prefix (p ∷ ps) [] = none
strip_prefix (p ∷ ps) (c ∷ cs) = if p == c then strip_prefix ps cs else none

-- `trim_start_matches`: every copy of a prefix that is not empty goes, and the length of the text is as
-- many as there can be.
unfoldable pub trim_start_matches : Text → ℕ → Text → Text
unfolding strip_prefix
trim_start_matches pattern zero s = s
trim_start_matches pattern (suc fuel) s = elim (strip_prefix pattern s) [
  | none ↦ s
  | some rest ↦ trim_start_matches pattern fuel rest
]
