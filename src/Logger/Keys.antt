-- ===== src/Logger/Keys.antt =====
-- logger/src/stream.rs: the keys of the lines stand in the database in the order of the lines.
use native.Mathlib.Nat.{
  mul-le-mul_left, mul-suc, div-add-mod, mod-lt, div-lt_iff_lt-mul, one-le-pow, pow-succ',
}
use cloud_devenv_sh.Base.{
  ℕ, zero, suc, ◌∷◌, [], ◌++◌, ◌≡◌, refl, arith, ◌<◌, ltb, ◌==◌, ◌/◌, ◌||◌, ◌&&◌, ◌%◌, ◌*◌, ◌^◌,
  subst, ◌+◌, ◌∙◌, ◌≤◌,
}
use cloud_devenv_sh.Logger.{format_key, hex, bytes_lt, hex_digit}
use cloud_devenv_sh.Base.Texts.{Text}

hex_digit-order : (c d : ℕ) → c < 16 → d < 16 → ltb (hex_digit c) (hex_digit d) ≡ ltb c d
unfolding hex_digit
hex_digit-order c d hc hd = ground arith

hex_digit-eq : (c d : ℕ) → c < 16 → d < 16 → (hex_digit c == hex_digit d) ≡ (c == d)
unfolding hex_digit
hex_digit-eq c d hc hd = ground arith

next_place : (b q q' : ℕ) → q < q' → b * q + b ≤ b * q'
next_place b q q' lt = omega (arith, mul-le-mul_left {m = suc q} {n = q'} b lt, mul-suc b q)

-- Numbers compare as their first digits do, and else as the rest.
places :
    (b n m : ℕ) → 0 < b → ltb n m ≡ (ltb (n / b) (m / b) || (n / b == m / b) && ltb (n % b) (m % b))
places b n m pos = ground (
  arith,
  div-add-mod n b,
  div-add-mod m b,
  mod-lt n pos,
  mod-lt m pos,
  next_place b (n / b) (m / b),
  next_place b (m / b) (n / b),
)

first_digit : (k n : ℕ) → n < 16 ^ suc k → n / 16 ^ k < 16
first_digit k n lt =
    (div-lt_iff_lt-mul {k = 16 ^ k} {x = n} {y = 16} (one-le-pow k 16 (omega arith))).1
      (subst (λ (b : ℕ). n < b) (pow-succ' 16 k) lt)

hex-order : (k n m : ℕ) → n < 16 ^ k → m < 16 ^ k → bytes_lt (hex k n) (hex k m) ≡ ltb n m
unfolding hex bytes_lt
hex-order zero n m hn hm = ground (arith, hn, hm)
hex-order (suc k) n m hn hm = ground (
  arith,
  hex_digit-order (n / 16 ^ k) (m / 16 ^ k) (first_digit k n hn) (first_digit k m hm),
  hex_digit-eq (n / 16 ^ k) (m / 16 ^ k) (first_digit k n hn) (first_digit k m hm),
  hex-order k (n % 16 ^ k) (m % 16 ^ k) (mod-lt n pos) (mod-lt m pos),
  places (16 ^ k) n m pos,
)
  where
    pos : 0 < 16 ^ k
    pos = one-le-pow k 16 (omega arith)

prefix-order : (p s t : Text) → bytes_lt (p ++ s) (p ++ t) ≡ bytes_lt s t
unfolding bytes_lt
prefix-order [] s t = refl
prefix-order (c ∷ p) s t = ground (arith, prefix-order p s t)

-- The keys of two lines of one log are in the order of the lines, for all lines that a `u64` counts.
pub format_key-order :
    (uuid : Text) (n m : ℕ)
    → n < 2 ^ 64
    → m < 2 ^ 64
    → bytes_lt (format_key uuid n) (format_key uuid m) ≡ ltb n m
unfolding format_key bytes_lt
format_key-order uuid n m hn hm =
    prefix-order uuid (b'-' ∷ hex 16 n) (b'-' ∷ hex 16 m) ∙ ground (arith, hex-order 16 n m hn hm)
