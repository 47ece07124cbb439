-- ===== src/Support/Action.antt =====
-- Methods that change an object and may raise: the object comes back beside the exception too.
use mathlib.Core.Path.{◌≡◌, refl}
use mathlib.Core.Logic.{inl, inr}
use mathlib.Core.Bool.{Bool, true, false}
use mathlib.Core.Option.{Option, none, some}
use mathlib.Core.List.{List, [], ◌∷◌}
use Prim.Native.Nat.{ℕ, zero, suc, ◌<◌}
use native.Mathlib.Omega.{arith}
use tokenlyfy_v.Support.Tests.{if◌then◌else◌, Bool-cases}
use tokenlyfy_v.Support.Outcome.{Outcome, ok, raise}

abbrev pub Action {ℓ κ} : Type ℓ → Type κ → Type (ℓ ⊔ κ)
Action S A = S → Outcome A × S

module _ {ℓ κ} {S : Type ℓ} {A : Type κ} where
  unfoldable pub return : A → Action S A
  return a s = (ok a, s)

  unfoldable pub gets : (S → A) → Action S A
  gets f s = (ok (f s), s)

unfoldable pub modify {ℓ} : {S : Type ℓ} → (S → S) → Action S (Unit {0})
modify f s = (ok tt, f s)

module _ {ℓ κ μ} {S : Type ℓ} {A : Type κ} {B : Type μ} where
  abbrev pub continue : Outcome A → (A → Action S B) → Action S B
  continue (ok a) f s = f a s
  continue (raise e) f s = (raise e, s)

  infixl 5 ◌>>=◌ ◌>>◌
  unfoldable pub ◌>>=◌ : Action S A → (A → Action S B) → Action S B
  unfolding return gets modify
  ◌>>=◌ m f s = let (r, s') = m s in continue r f s'

  abbrev pub ◌>>◌ : Action S A → Action S B → Action S B
  m >> n = m >>= λ _. n

module _ {ℓ κ μ ν} {S : Type ℓ} {A : Type κ} {B : Type μ} {C : Type ν} where
  -- Steps may be grouped: the result and the object are the same.
  pub bind_assoc :
      (m : Action S A) (f : A → Action S B) (g : B → Action S C) (s : S)
      → (m >>= f >>= g) s ≡ (m >>= λ a. f a >>= g) s
  unfolding ◌>>=◌
  bind_assoc m f g s = by_outcome (m s)
    where
      by_outcome :
          (r : Outcome A × S)
          → continue (continue r.0 f r.1).0 g (continue r.0 f r.1).1
            ≡ continue r.0 (λ a s'. continue (f a s').0 g (f a s').1) r.1
      by_outcome (ok a, s') = refl
      by_outcome (raise e, s') = refl

module _ {ℓ} {S : Type ℓ} where
  -- `while test: body`; the value `none` means that the fuel ran out.
  unfoldable pub while_do : ℕ → (S → Bool) → Action S (Unit {0}) → Action S (Option (Unit {0}))
  unfolding ◌>>=◌
  while_do zero test body s = (ok none, s)
  while_do (suc fuel) test body s = elim (test s) [
    | true ↦ (body >>= λ _. while_do fuel test body) s
    | false ↦ (ok (some tt), s)
  ]

  -- `for x in xs: body(x)`
  unfoldable pub for_each {κ} :
      {A : Type κ} → (A → Action S (Unit {0})) → List A → Action S (Unit {0})
  unfolding ◌>>=◌
  for_each body [] = return tt
  for_each body (x ∷ xs) = do body x; for_each body xs

-- The property of the object survives the action, whether it returns or raises.
pub record Keeps {ℓ κ μ} {S : Type ℓ} {A : Type κ} (P : S → Type μ) (m : Action S A)
    : Type (ℓ ⊔ κ ⊔ μ) where
  pub keeps : (s : S) → P s → P (m s).1

module _ {ℓ κ μ} {S : Type ℓ} {A : Type κ} {P : S → Type μ} where
  pub Keeps-return : (a : A) → Keeps P (return {S = S} a)
  unfolding return
  Keeps-return a = record { keeps = λ s h. h }

  pub Keeps-gets : (f : S → A) → Keeps P (gets f)
  unfolding gets
  Keeps-gets f = record { keeps = λ s h. h }

  pub Keeps-if :
      (b : Bool) (m n : Action S A) → Keeps P m → Keeps P n → Keeps P (if b then m else n)
  Keeps-if true m n h k = h
  Keeps-if false m n h k = k

module _ {ℓ κ μ ν} {S : Type ℓ} {A : Type κ} {B : Type μ} {P : S → Type ν} where
  pub Keeps->>= :
      (m : Action S A) (f : A → Action S B)
      → Keeps P m
      → ((a : A) → Keeps P (f a))
      → Keeps P (m >>= f)
  unfolding ◌>>=◌
  Keeps->>= m f h k = record { keeps = λ s p. after (m s) (h.keeps s p) }
    where
      after : (r : Outcome A × S) → P r.1 → P (continue r.0 f r.1).1
      after (ok a, s) p = (k a).keeps s p
      after (raise e, s) p = p

module _ {ℓ κ μ} {S : Type ℓ} {A : Type κ} {P : S → Type μ} where
  -- Two assignments in a row may break the property between them.
  pub Keeps-modify_twice :
      (f g : S → S) (rest : Action S A)
      → ((s : S) → P s → P (g (f s)))
      → Keeps P rest
      → Keeps P (do modify f; modify g; rest)
  unfolding ◌>>=◌
  Keeps-modify_twice f g rest h k = record { keeps = λ s p. k.keeps (g (f s)) (h s p) }

module _ {ℓ μ} {S : Type ℓ} {P : S → Type μ} where
  pub Keeps-for_each {κ} :
      {A : Type κ} (body : A → Action S (Unit {0})) (xs : List A)
      → ((x : A) → Keeps P (body x))
      → Keeps P (for_each body xs)
  unfolding for_each
  Keeps-for_each body [] h = Keeps-return tt
  Keeps-for_each body (x ∷ xs) h =
      Keeps->>= (body x) (λ _. for_each body xs) (h x) (λ _. Keeps-for_each body xs h)

  pub Keeps-while_do :
      (fuel : ℕ) (test : S → Bool) (body : Action S (Unit {0}))
      → Keeps P body
      → Keeps P (while_do fuel test body)
  unfolding while_do
  Keeps-while_do zero test body h = record { keeps = λ s p. p }
  Keeps-while_do (suc fuel) test body h = record {
    keeps = λ s p. elim (Bool-cases (test s)) [
      | inl e ↦
          rw (e, while_do)
            ((Keeps->>= body (λ _. while_do fuel test body) h
                (λ _. Keeps-while_do fuel test body h)).keeps
              s p)
      | inr e ↦ rw (e, while_do) p
    ];
  }

  -- A loop ends by its test where each round returns, keeps `P` and lowers a measure below the fuel.
  pub while_do_ends :
      (measure : S → ℕ) (test : S → Bool) (body : Action S (Unit {0}))
      → ((s : S)
          → P s
          → test s ≡ true
          → (s' : S) × (body s ≡ (ok tt, s')) × P s' × (measure s' < measure s))
      → (fuel : ℕ) (s : S) → measure s < fuel
      → P s
      → (s' : S) × (while_do fuel test body s ≡ (ok (some tt), s')) × P s' × (test s' ≡ false)
  unfolding while_do
  while_do_ends measure test body round zero s m p = absurd (omega arith)
  while_do_ends measure test body round (suc fuel) s m p = elim (Bool-cases (test s)) [
    | inl e ↦
        let (s', eq, p', less) = round s p e in
        let (s'', eq', p'', stop) =
          while_do_ends measure test body round fuel s' (omega arith) p' in
        (s'', rw (e, while_do, eq) eq', p'', stop)
    | inr e ↦ (s, rw (e, while_do) refl, p, e)
  ]

pub ruleset keeps_rules = (Keeps-return, Keeps-gets, Keeps-if, Keeps->>=)
