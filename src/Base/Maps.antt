-- ===== src/Base/Maps.antt =====
-- A hash map with numbers for keys, as an association list. `HashMap::insert` drops what stood under
-- the key; the order of the entries carries no meaning, since the program's maps have none.
use Prim.Native.Nat.{ℕ, suc, ◌+◌, ◌≤◌}
use mathlib.Core.Path.{◌≡◌, refl, ap}
use mathlib.Core.Bool.{Bool, true, false}
use mathlib.Core.Logic.{inl, inr}
use mathlib.Core.Option.{Option, none, some}
use mathlib.Core.List.{List, [], ◌∷◌}
use native.Mathlib.Omega.{arith}
use cloud_devenv_sh.Base.Tests.{◌==◌, if◌then◌else◌, Bool-cases}
use cloud_devenv_sh.Base.Lists.{length, count}

abbrev pub Map {ℓ} : Type ℓ → Type ℓ
Map V = List (ℕ × V)

module _ {ℓ} {V : Type ℓ} where
  unfoldable pub get : ℕ → Map V → Option V
  get k [] = none
  get k ((j, v) ∷ m) = if j == k then some v else get k m

  unfoldable pub remove : ℕ → Map V → Map V
  remove k [] = []
  remove k ((j, v) ∷ m) = let rest = remove k m in if j == k then rest else (j, v) ∷ rest

  unfoldable pub insert : ℕ → V → Map V → Map V
  insert k v m = (k, v) ∷ remove k m

  unfoldable pub contains_key : ℕ → Map V → Bool
  contains_key k m = elim (get k m) [ none ↦ false | some v ↦ true ]

  -- A write through `get_mut`.
  unfoldable pub update : ℕ → (V → V) → Map V → Map V
  update k f [] = []
  update k f ((j, v) ∷ m) =
      let rest = update k f m in if j == k then (j, f v) ∷ rest else (j, v) ∷ rest

  abbrev pub values : Map V → List V
  values [] = []
  values ((k, v) ∷ m) = v ∷ values m

  -- No key stands twice.
  abbrev pub IsUnique : Map V → Type ℓ
  IsUnique [] = Unit
  IsUnique ((k, v) ∷ m) = (get k m ≡ none) × IsUnique m

module _ {ℓ} {V : Type ℓ} where
  pub get-remove : (k j : ℕ) (m : Map V) → get j (remove k m) ≡ (if k == j then none else get j m)
  unfolding get remove
  get-remove k j [] = ground arith
  get-remove k j ((i, v) ∷ m) = ground (arith, get-remove k j m)

  pub get-insert :
      (k j : ℕ) (v : V) (m : Map V) → get j (insert k v m) ≡ (if k == j then some v else get j m)
  unfolding get insert
  get-insert k j v m = ground (arith, get-remove k j m)

  pub get-update :
      (k j : ℕ) (f : V → V) (m : Map V)
      → get j (update k f m)
        ≡ (if k == j then elim (get j m) [ none ↦ none | some v ↦ some (f v) ] else get j m)
  unfolding get update
  get-update k j f [] = ground arith
  get-update k j f ((i, v) ∷ m) = ground (arith, get-update k j f m)

  pub remove_absent : (k : ℕ) (m : Map V) → get k m ≡ none → remove k m ≡ m
  unfolding get remove
  remove_absent k [] h = refl
  remove_absent k ((j, v) ∷ m) h = ground (arith, remove_absent k m)

  pub remove-insert : (k : ℕ) (v : V) (m : Map V) → get k m ≡ none → remove k (insert k v m) ≡ m
  unfolding remove insert
  remove-insert k v m h =
      ground (arith, remove_absent k m, remove_absent k (remove k m), get-remove k k m)

  pub remove-IsUnique : (k : ℕ) (m : Map V) → IsUnique m → IsUnique (remove k m)
  unfolding remove
  remove-IsUnique k [] u = tt
  remove-IsUnique k ((j, v) ∷ m) u = ground (arith, remove-IsUnique k m, get-remove k j m)

  pub insert-IsUnique : (k : ℕ) (v : V) (m : Map V) → IsUnique m → IsUnique (insert k v m)
  unfolding insert
  insert-IsUnique k v m u = (get-removed, remove-IsUnique k m u)
    where
      get-removed : get k (remove k m) ≡ none
      get-removed = ground (arith, get-remove k k m)

  pub update-IsUnique : (k : ℕ) (f : V → V) (m : Map V) → IsUnique m → IsUnique (update k f m)
  unfolding update
  update-IsUnique k f [] u = tt
  update-IsUnique k f ((j, v) ∷ m) u = ground (arith, update-IsUnique k f m, get-update k j f m)

  pub length-remove-le : (k : ℕ) (m : Map V) → length (remove k m) ≤ length m
  unfolding remove
  length-remove-le k [] = omega arith
  length-remove-le k ((j, v) ∷ m) = ground (arith, length-remove-le k m)

  -- The sum of a cost over the values.
  unfoldable pub total : (V → ℕ) → Map V → ℕ
  total cost [] = 0
  total cost ((k, v) ∷ m) = cost v + total cost m

  pub total-remove :
      (cost : V → ℕ) (k : ℕ) (v : V) (m : Map V)
      → IsUnique m
      → get k m ≡ some v
      → cost v + total cost (remove k m) ≡ total cost m
  unfolding total get remove
  total-remove cost k v [] u h = cc
  total-remove cost k v ((j, w) ∷ m) u h = elim (Bool-cases (j == k)) [
    | inl same ↦ ground (arith, remove_absent k m)
    | inr other ↦ ground (arith, total-remove cost k v m u.1)
  ]

  pub total-insert :
      (cost : V → ℕ) (k : ℕ) (v : V) (m : Map V)
      → get k m ≡ none
      → total cost (insert k v m) ≡ cost v + total cost m
  unfolding total insert
  total-insert cost k v m fresh =
      ap (λ (n : Map V). cost v + total cost n) (remove_absent k m fresh)

  pub length-insert :
      (k : ℕ) (v : V) (m : Map V) → get k m ≡ none → length (insert k v m) ≡ suc (length m)
  unfolding insert
  length-insert k v m fresh = ap (λ (n : Map V). suc (length n)) (remove_absent k m fresh)

  pub length-remove :
      (k : ℕ) (v : V) (m : Map V)
      → IsUnique m
      → get k m ≡ some v
      → suc (length (remove k m)) ≡ length m
  unfolding get remove
  length-remove k v [] u h = cc
  length-remove k v ((j, w) ∷ m) u h = elim (Bool-cases (j == k)) [
    | inl same ↦ ground (arith, remove_absent k m)
    | inr other ↦ ground (arith, length-remove k v m u.1)
  ]

  abbrev pub keys : Map V → List ℕ
  keys [] = []
  keys ((k, v) ∷ m) = k ∷ keys m

  pub count-keys-none : (k : ℕ) (m : Map V) → get k m ≡ none → count k (keys m) ≡ 0
  unfolding get
  count-keys-none k [] h = refl
  count-keys-none k ((j, v) ∷ m) h = ground (arith, count-keys-none k m)

  pub count-keys-some :
      (k : ℕ) (v : V) (m : Map V) → IsUnique m → get k m ≡ some v → count k (keys m) ≡ 1
  unfolding get
  count-keys-some k v [] u h = cc
  count-keys-some k v ((j, w) ∷ m) u h =
      ground (arith, count-keys-some k v m u.1, count-keys-none k m)

  pub count-keys-remove :
      (k a : ℕ) (m : Map V) → count a (keys (remove k m)) ≡ (if k == a then 0 else count a (keys m))
  unfolding remove
  count-keys-remove k a [] = ground arith
  count-keys-remove k a ((j, v) ∷ m) = ground (arith, count-keys-remove k a m)

pub ruleset map_laws = (get-remove, get-insert, get-update)
