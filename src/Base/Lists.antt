-- ===== src/Base/Lists.antt =====
-- Lists measured by native numbers, and predicates over lists by recursion.
use Prim.Native.Nat.{ℕ, zero, suc, ◌+◌, ◌≤◌}
use mathlib.Core.Path.{◌≡◌, refl, ap, ◌∙◌}
use mathlib.Core.Bool.{Bool}
use mathlib.Core.Option.{Option, none, some}
use mathlib.Core.List.{List, [], ◌∷◌, ◌++◌, map}
use native.Mathlib.Omega.{arith}
use cloud_devenv_sh.Base.Tests.{ltb, leb, ◌==◌, if◌then◌else◌}

module _ {ℓ} {A : Type ℓ} where
  abbrev pub length : List A → ℕ
  length [] = 0
  length (x ∷ xs) = suc (length xs)

  -- The elements that pass a Boolean test, in order.
  abbrev pub filterb : (A → Bool) → List A → List A
  filterb p [] = []
  filterb p (x ∷ xs) = let rest = filterb p xs in if p x then x ∷ rest else rest

  abbrev pub All {κ} : (A → Type κ) → List A → Type κ
  All P [] = Unit
  All P (x ∷ xs) = P x × All P xs

module _ {ℓ} {A : Type ℓ} where
  pub length-append : (xs ys : List A) → length (xs ++ ys) ≡ length xs + length ys
  length-append [] ys = omega arith
  length-append (x ∷ xs) ys = omega (arith, length-append xs ys)

  pub length-map {κ} : {B : Type κ} (xs : List A) (f : A → B) → length (map f xs) ≡ length xs
  length-map [] f = refl
  length-map (x ∷ xs) f = ap suc (length-map xs f)

  pub length-filterb-le : (p : A → Bool) (xs : List A) → length (filterb p xs) ≤ length xs
  length-filterb-le p [] = omega arith
  length-filterb-le p (x ∷ xs) = ground (arith, length-filterb-le p xs)

  pub All-append {κ} : (P : A → Type κ) (xs ys : List A) → All P xs → All P ys → All P (xs ++ ys)
  All-append P [] ys hx hy = hy
  All-append P (x ∷ xs) ys hx hy = (hx.0, All-append P xs ys hx.1 hy)

-- How often a number stands in a list; two lists with the same counts hold the same items.
abbrev pub count : ℕ → List ℕ → ℕ
count a [] = 0
count a (x ∷ xs) = let rest = count a xs in if x == a then suc rest else rest

-- The numbers from `first`, `n` of them.
unfoldable pub range : ℕ → ℕ → List ℕ
range first zero = []
range first (suc n) = first ∷ range (suc first) n

pub count-append : (a : ℕ) (xs ys : List ℕ) → count a (xs ++ ys) ≡ count a xs + count a ys
count-append a [] ys = omega arith
count-append a (x ∷ xs) ys = ground (arith, count-append a xs ys)

pub count-range :
    (a first n : ℕ)
    → count a (range first n) ≡ (if leb first a then (if ltb a (first + n) then 1 else 0) else 0)
unfolding range
count-range a first zero = ground arith
count-range a first (suc n) = ground (arith, count-range a (suc first) n)

-- The numbers that `f` finds in the items of a list.
abbrev pub collect {ℓ} : {A : Type ℓ} → (A → Option ℕ) → List A → List ℕ
collect f [] = []
collect f (x ∷ xs) = let rest = collect f xs in elim (f x) [ none ↦ rest | some a ↦ a ∷ rest ]

pub collect-append {ℓ} :
    {A : Type ℓ} (f : A → Option ℕ) (xs ys : List A)
    → collect f (xs ++ ys) ≡ collect f xs ++ collect f ys
collect-append f [] ys = refl
collect-append f (x ∷ xs) ys = ground (arith, collect-append f xs ys)

pub count-collect {ℓ} :
    {A : Type ℓ} (f : A → Option ℕ) (a : ℕ) (xs ys : List A)
    → count a (collect f (xs ++ ys)) ≡ count a (collect f xs) + count a (collect f ys)
count-collect f a xs ys =
    ap (count a) (collect-append f xs ys) ∙ count-append a (collect f xs) (collect f ys)

module _ {ℓ} {A : Type ℓ} where
  pub All-imp {κ κ'} :
      (P : A → Type κ) (Q : A → Type κ') (xs : List A) → ((x : A) → P x → Q x) → All P xs → All Q xs
  All-imp P Q [] f h = tt
  All-imp P Q (x ∷ xs) f h = (f x h.0, All-imp P Q xs f h.1)
