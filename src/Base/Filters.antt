-- ===== src/Base/Filters.antt =====
-- Lists that are filtered by a Boolean test.
use mathlib.Core.List.Permᴰ
use mathlib.Core.List.{Permᴰ}
use cloud_devenv_sh.Base.{
  Bool, List, All, filterb, ◌≡◌, false, true, ◌++◌, ◌∷◌, Bool-cases, arith, refl, [], inl, inr, ap,
  subst, ◌∙◌,
}

-- Two filters in a row.
pub filterb-filterb {ℓ} :
    {A : Type ℓ} (p q : A → Bool) (xs : List A)
    → filterb p (filterb q xs) ≡ filterb q (filterb p xs)
filterb-filterb p q [] = refl
filterb-filterb p q (x ∷ xs) = ground (arith, filterb-filterb p q xs)

pub filterb-append {ℓ} :
    {A : Type ℓ} (p : A → Bool) (xs ys : List A)
    → filterb p (xs ++ ys) ≡ filterb p xs ++ filterb p ys
filterb-append p [] ys = refl
filterb-append p (x ∷ xs) ys = ground (arith, filterb-append p xs ys)

pub filterb-keep {ℓ} :
    {A : Type ℓ} (p : A → Bool) (x : A) (xs : List A)
    → p x ≡ true
    → filterb p (x ∷ xs) ≡ x ∷ filterb p xs
filterb-keep p x xs h = rw h refl

pub filterb-skip {ℓ} :
    {A : Type ℓ} (p : A → Bool) (x : A) (xs : List A)
    → p x ≡ false
    → filterb p (x ∷ xs) ≡ filterb p xs
filterb-skip p x xs h = rw h refl

-- What the first filter lets through, the second does too.
pub filterb_implied {ℓ} :
    {A : Type ℓ} (p q : A → Bool) (xs : List A)
    → ((x : A) → p x ≡ true → q x ≡ true)
    → filterb p (filterb q xs) ≡ filterb p xs
filterb_implied p q [] h = refl
filterb_implied p q (x ∷ xs) h = elim (Bool-cases (p x)) [
  | inl e ↦ ground (arith, e, h x e, filterb_implied p q xs h)
  | inr e ↦ ground (arith, e, filterb_implied p q xs h)
]

pub All-filterb {ℓ κ} :
    {A : Type ℓ} (P : A → Type κ) (f : A → Bool) (xs : List A)
    → ((x : A) → f x ≡ true → P x)
    → All P (filterb f xs)
All-filterb P f [] h = tt
All-filterb P f (x ∷ xs) h = elim (Bool-cases (f x)) [
  | inl e ↦ rw e (h x e, All-filterb P f xs h)
  | inr e ↦ rw e (All-filterb P f xs h)
]

pub All-kept {ℓ κ} :
    {A : Type ℓ} (P : A → Type κ) (f : A → Bool) (xs : List A) → All P xs → All P (filterb f xs)
All-kept P f [] a = tt
All-kept P f (x ∷ xs) (p, a) = elim (Bool-cases (f x)) [
  | inl e ↦ rw e (p, All-kept P f xs a)
  | inr e ↦ rw e (All-kept P f xs a)
]

pub filterb_reordered {ℓ} :
    {A : Type ℓ} (f : A → Bool) {xs ys : List A} → Permᴰ xs ys → Permᴰ (filterb f xs) (filterb f ys)
filterb_reordered f Permᴰ.nil = Permᴰ.nil
filterb_reordered f (Permᴰ.cons {a = a} {b = b} e d) = elim (Bool-cases (f b)) [
  | inl t ↦ rw (ap f e ∙ t, t) (Permᴰ.cons e (filterb_reordered f d))
  | inr t ↦ rw (ap f e ∙ t, t) (filterb_reordered f d)
]
filterb_reordered f (Permᴰ.swap {a = a} {b = b} {a' = a'} {b' = b'} {l = l} e e') =
    elim (Bool-cases (f a')) [
      | inl t ↦ elim (Bool-cases (f b')) [
        | inl u ↦ rw (ap f e ∙ u, ap f e' ∙ t, t, u) (Permᴰ.swap e e')
        | inr u ↦ rw (ap f e ∙ u, ap f e' ∙ t, t, u) (Permᴰ.cons e' (Permᴰ.refl (filterb f l)))
      ]
      | inr t ↦ elim (Bool-cases (f b')) [
        | inl u ↦ rw (ap f e ∙ u, ap f e' ∙ t, t, u) (Permᴰ.cons e (Permᴰ.refl (filterb f l)))
        | inr u ↦ rw (ap f e ∙ u, ap f e' ∙ t, t, u) (Permᴰ.refl (filterb f l))
      ]
    ]
filterb_reordered f (Permᴰ.trans d d') =
    Permᴰ.trans (filterb_reordered f d) (filterb_reordered f d')

pub All_reordered {ℓ κ} :
    {A : Type ℓ} (P : A → Type κ) {xs ys : List A} → Permᴰ xs ys → All P xs → All P ys
All_reordered P Permᴰ.nil a = a
All_reordered P (Permᴰ.cons e d) (p, a) = (subst P e p, All_reordered P d a)
All_reordered P (Permᴰ.swap e e') (p, (q, a)) = (subst P e' q, (subst P e p, a))
All_reordered P (Permᴰ.trans d d') a = All_reordered P d' (All_reordered P d a)
