-- ===== src/Runner/Driver/Keeps.antt =====
-- What an action of runner/src/bin/driver.rs keeps, whatever the world answers.
use Prim.Native.String.{String}
use cloud_devenv_sh.Runner.Driver.Actions.{
  ok, err, ◌>>=◌, ◌>>◌, Call, Process, attempt, Action, Result, World, pure, ignore, perform,
  require, run_status, Command, set_var, is_set,
}
use cloud_devenv_sh.Base.{
  none, some, ◌≡◌, ap, refl, ◌⊎◌, inl, inr, ◌∙◌, Bool, ◌∷◌, List, Option, Bool-cases,
}
use cloud_devenv_sh.Runner.Driver.{ensure_cert, with_ref}

-- The predicate holds after the action if it held before, also where the action fails.
abbrev pub Keeps : {A : Type 0} → (Process → Type 0) → Action A → Type 0
Keeps P m = (g : Process) → P g → P (m g).1

-- After the calls that satisfy `allowed`, and after a variable is set, the predicate still holds.
pub record IsInvariant (allowed : Call → Type 0) (P : Process → Type 0) : Type 0 where
  pub step :
      (c : Call) (g : Process)
      → allowed c
      → P g
      → P (record g { steps = (c, g.uid, g.gid) ∷ g.steps })
  pub var : (vars : List (String × String)) (g : Process) → P g → P (record g { vars = vars })

bind_cases :
    {A B : Type 0} (P : Process → Type 0) (r : Result A) (g : Process) (f : A → Action B)
    → P g
    → ((a : A) → Keeps P (f a))
    → P (elim r as (λ s. Result B × Process) [ ok a ↦ f a g | err ↦ (err, g) ]).1
bind_cases P (ok a) g f p h = h a g p
bind_cases P err g f p h = p

pub Keeps-bind :
    {A B : Type 0} (P : Process → Type 0) (m : Action A) (f : A → Action B)
    → Keeps P m
    → ((a : A) → Keeps P (f a))
    → Keeps P (m >>= f)
Keeps-bind P m f h k g p = bind_cases P (m g).0 (m g).1 f (h g p) k

pub Keeps-then :
    {B : Type 0} (P : Process → Type 0) (m : Action (Unit {0})) (k : Action B)
    → Keeps P m
    → Keeps P k
    → Keeps P (m >> k)
Keeps-then P m k h h' = Keeps-bind P m (λ u. k) h (λ u. h')

-- The two ways a sequence goes on.
pub then-ok :
    {A B : Type 0} (m : Action A) (k : A → Action B) (g g' : Process) (a : A)
    → m g ≡ (ok a, g')
    → (m >>= k) g ≡ k a g'
then-ok {B = B} m k g g' a e =
    ap
      (λ (r : Result _ × Process). elim r.0 as (λ s. Result B × Process) [
        | ok b ↦ k b r.1
        | err ↦ (err, r.1)
      ])
      e

pub then-err :
    {A B : Type 0} (m : Action A) (k : A → Action B) (g g' : Process)
    → m g ≡ (err, g')
    → (m >>= k) g ≡ (err, g')
then-err {B = B} m k g g' e =
    ap
      (λ (r : Result _ × Process). elim r.0 as (λ s. Result B × Process) [
        | ok b ↦ k b r.1
        | err ↦ (err, r.1)
      ])
      e

-- How an action ends: without an error where `Q` holds, or with one where `P` does.
abbrev pub Ends : Action (Unit {0}) → Process → (Process → Type 0) → (Process → Type 0) → Type 0
Ends m g P Q =
    ((g' : Process) × (m g ≡ (ok tt, g')) × Q g') ⊎ ((g' : Process) × (m g ≡ (err, g')) × P g')

ends_cases :
    (P Q : Process → Type 0) (r : Result (Unit {0})) (g : Process)
    → P g
    → Q g
    → ((g' : Process) × (◌≡◌ {A = Result (Unit {0}) × Process} (r, g) (ok tt, g')) × Q g')
      ⊎ ((g' : Process) × (◌≡◌ {A = Result (Unit {0}) × Process} (r, g) (err, g')) × P g')
ends_cases P Q (ok tt) g p q = inl (g, refl, q)
ends_cases P Q err g p q = inr (g, refl, p)

pub Ends-keep :
    (m : Action (Unit {0})) (g : Process) (P Q R : Process → Type 0)
    → Keeps R m
    → ((g' : Process) → R g' → P g')
    → ((g' : Process) → R g' → Q g')
    → R g
    → Ends m g P Q
Ends-keep m g P Q R h p q r = ends_cases P Q (m g).0 (m g).1 (p (m g).1 (h g r)) (q (m g).1 (h g r))

pub Ends-then :
    (m k : Action (Unit {0})) (g : Process) (P Q R : Process → Type 0)
    → Ends m g P Q
    → ((g' : Process) → Q g' → Ends k g' P R)
    → Ends (m >> k) g P R
Ends-then m k g P Q R (inl (g', e, q)) h = elim (h g' q) [
  | inl (u, f, r) ↦ inl (u, then-ok m (λ s. k) g g' tt e ∙ f, r)
  | inr (u, f, p) ↦ inr (u, then-ok m (λ s. k) g g' tt e ∙ f, p)
]
Ends-then m k g P Q R (inr (g', e, p)) h = inr (g', then-err m (λ s. k) g g' e, p)

pub Keeps-pure : {A : Type 0} (P : Process → Type 0) (a : A) → Keeps P (pure a)
Keeps-pure P a g p = p

pub Keeps-require : (P : Process → Type 0) (b : Bool) → Keeps P (require b)
Keeps-require P b g p = p

pub Keeps-attempt :
    {A : Type 0} (P : Process → Type 0) (m : Action A) → Keeps P m → Keeps P (attempt m)
unfolding attempt
Keeps-attempt P m h = h

module _ {allowed : Call → Type 0} {P : Process → Type 0} (i : IsInvariant allowed P)
    (w : World) where
  pub Keeps-perform : (c : Call) → allowed c → Keeps P (perform w c)
  unfolding perform
  Keeps-perform c a g p = i.step c g a p

  pub Keeps-ignore : (c : Call) → allowed c → Keeps P (ignore w c)
  unfolding ignore
  Keeps-ignore c a g p = i.step c g a p

  pub Keeps-set_var : (name value : String) → Keeps P (set_var name value)
  Keeps-set_var name value g p = i.var ((name, value) ∷ g.vars) g p

  pub Keeps-run_status : (c : Command) → allowed (Call.run_command c) → Keeps P (run_status w c)
  unfolding run_status
  Keeps-run_status c a =
      Keeps-then P (perform w (Call.run_command c)) (require (w.status c))
        (Keeps-perform (Call.run_command c) a) (Keeps-require P (w.status c))

  pub Keeps-ensure_cert : (name : String) → Keeps P (ensure_cert w name)
  unfolding ensure_cert
  Keeps-ensure_cert name g p = elim (Bool-cases (is_set name g.vars)) [
    | inl e ↦ rw (ensure_cert, e) p
    | inr e ↦
        rw (ensure_cert, e)
          (Keeps-then P (require w.cert_path_exists) (set_var name "/etc/ssl/certs/ca-bundle.crt")
            (Keeps-require P w.cert_path_exists) (Keeps-set_var name "/etc/ssl/certs/ca-bundle.crt")
            g p)
  ]

  pub Keeps-with_ref :
      ((r : String) → allowed (Call.with_ref_name r))
      → (git_ref : Option String) → Keeps P (with_ref w git_ref)
  Keeps-with_ref h none = Keeps-pure P tt
  Keeps-with_ref h (some r) = Keeps-perform (Call.with_ref_name r) (h r)
