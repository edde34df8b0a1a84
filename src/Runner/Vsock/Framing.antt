-- ===== src/Runner/Vsock/Framing.antt =====
-- runner/src/vsock.rs, `write_message` and `read_message`.
use mathlib.Core.List.{append_assoc}
use cloud_devenv_sh.Base.{
  ℕ, [], ◌∷◌, some, refl, ◌+◌, List, ◌-◌, Option, ◌++◌, ◌<◌, ◌≡◌, arith, length, ◌^◌,
}
use cloud_devenv_sh.Runner.Vsock.{
  from_le_bytes, read_exact, write_message, read_message, to_le_bytes,
}

length_bytes : (n : ℕ) → n < 2 ^ 32 → from_le_bytes (to_le_bytes n) ≡ n
unfolding from_le_bytes to_le_bytes
length_bytes n h = omega arith

pred_suc : (n : ℕ) → n + 1 - 1 ≡ n
pred_suc n = omega arith

read_exact-append : (xs ys : List ℕ) → read_exact (xs ++ ys) (length xs) ≡ some (xs, ys)
unfolding read_exact
read_exact-append [] [] = refl
read_exact-append [] (y ∷ ys) = refl
read_exact-append (x ∷ xs) ys = ground (arith, read_exact-append xs ys, pred_suc (length xs))

four : (n : ℕ) (ys : List ℕ) → read_exact (to_le_bytes n ++ ys) 4 ≡ some (to_le_bytes n, ys)
unfolding to_le_bytes
four n ys = read_exact-append (to_le_bytes n) ys

-- A message that is shorter than 2^32 bytes and that the coding reads back is read back from the stream
-- that it was written to, with the rest of the stream left as it was.
pub read_message-write_message :
    {T : Type 0} (to_vec : T → Option (List ℕ)) (from_slice : List ℕ → Option T) (message : T)
    (bytes rest : List ℕ)
    → to_vec message ≡ some bytes
    → from_slice bytes ≡ some message
    → length bytes < 2 ^ 32
    → (stream : List ℕ) × (write_message to_vec message ≡ some stream)
      × (read_message from_slice (stream ++ rest) ≡ some (message, rest))
unfolding write_message read_message
read_message-write_message to_vec from_slice message bytes rest e f h = (
  to_le_bytes (length bytes) ++ bytes,
  rw (e, write_message) refl,
  rw
      (
        append_assoc (to_le_bytes (length bytes)) bytes rest,
        four (length bytes) (bytes ++ rest),
        length_bytes (length bytes) h,
        read_exact-append bytes rest,
        f,
        read_message,
      )
      refl,
)
