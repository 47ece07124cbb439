-- ===== src/Support/Lists.antt =====
-- Lists measured and indexed by the native numbers, and predicates by recursion on them.
use Prim.Native.Nat.{ℕ, zero, suc, ◌+◌, ◌-◌, ◌≤◌, min}
use mathlib.Core.Path.{◌≡◌, refl, sym, ap, ◌∙◌}
use mathlib.Core.Logic.{inl, inr}
use mathlib.Core.Bool.{Bool, true, false}
use mathlib.Core.Option.{Option, none, some}
use mathlib.Core.List.Memᴰ
use mathlib.Core.List.{List, [], ◌∷◌, ◌++◌, Memᴰ}
use native.Mathlib.Omega.{arith}
use tokenlyfy_v.Support.Tests.{if◌then◌else◌, Bool-cases}

module _ {ℓ} {A : Type ℓ} where
  abbrev pub length : List A → ℕ
  length [] = 0
  length (x ∷ xs) = suc (length xs)

  abbrev pub get_elem? : List A → ℕ → Option A
  get_elem? [] i = none
  get_elem? (x ∷ xs) zero = some x
  get_elem? (x ∷ xs) (suc i) = get_elem? xs i

  -- A write out of bounds changes nothing.
  abbrev pub set : List A → ℕ → A → List A
  set [] i v = []
  set (x ∷ xs) zero v = v ∷ xs
  set (x ∷ xs) (suc i) v = x ∷ set xs i v

  abbrev pub take : ℕ → List A → List A
  take zero xs = []
  take (suc n) [] = []
  take (suc n) (x ∷ xs) = x ∷ take n xs

  abbrev pub drop : ℕ → List A → List A
  drop zero xs = xs
  drop (suc n) [] = []
  drop (suc n) (x ∷ xs) = drop n xs

  -- `[x for x in xs if test(x)]`
  unfoldable pub keep : (A → Bool) → List A → List A
  keep test [] = []
  keep test (x ∷ xs) = if test x then x ∷ keep test xs else keep test xs

  abbrev pub sum_by : (A → ℕ) → List A → ℕ
  sum_by f [] = 0
  sum_by f (x ∷ xs) = f x + sum_by f xs

module _ {ℓ} {A : Type ℓ} where
  pub length-append : (xs ys : List A) → length (xs ++ ys) ≡ length xs + length ys
  length-append [] ys = omega arith
  length-append (x ∷ xs) ys = omega (arith, length-append xs ys)

  pub take-append-drop : (n : ℕ) (xs : List A) → take n xs ++ drop n xs ≡ xs
  take-append-drop zero xs = refl
  take-append-drop (suc n) [] = refl
  take-append-drop (suc n) (x ∷ xs) = rw (take-append-drop n xs)

  pub length-take : (n : ℕ) (xs : List A) → length (take n xs) ≡ min n (length xs)
  length-take zero xs = omega arith
  length-take (suc n) [] = omega arith
  length-take (suc n) (x ∷ xs) = omega (arith, length-take n xs)

  pub length-drop : (n : ℕ) (xs : List A) → length (drop n xs) ≡ length xs - n
  length-drop zero xs = omega arith
  length-drop (suc n) [] = omega arith
  length-drop (suc n) (x ∷ xs) = omega (arith, length-drop n xs)

  pub sum_by-append : (f : A → ℕ) (xs ys : List A) → sum_by f (xs ++ ys) ≡ sum_by f xs + sum_by f ys
  sum_by-append f [] ys = omega arith
  sum_by-append f (x ∷ xs) ys = omega (arith, sum_by-append f xs ys)

  pub length-keep-le : (test : A → Bool) (xs : List A) → length (keep test xs) ≤ length xs
  unfolding keep
  length-keep-le test [] = omega arith
  length-keep-le test (x ∷ xs) = ground (arith, length-keep-le test xs)

-- A predicate by recursion computes to tuples, which the tactics read and build.
abbrev pub All {ℓ κ} : {A : Type ℓ} → (A → Type κ) → List A → Type κ
All P [] = Unit
All P (x ∷ xs) = P x × All P xs

module _ {ℓ κ} {A : Type ℓ} (P : A → Type κ) where
  pub All-append : (xs ys : List A) → All P xs → All P ys → All P (xs ++ ys)
  All-append [] ys hx hy = hy
  All-append (x ∷ xs) ys hx hy = (hx.0, All-append xs ys hx.1 hy)

  pub All-left : (xs ys : List A) → All P (xs ++ ys) → All P xs
  All-left [] ys h = tt
  All-left (x ∷ xs) ys h = (h.0, All-left xs ys h.1)

  pub All-right : (xs ys : List A) → All P (xs ++ ys) → All P ys
  All-right [] ys h = h
  All-right (x ∷ xs) ys h = All-right xs ys h.1

  pub All-keep : (test : A → Bool) (xs : List A) → All P xs → All P (keep test xs)
  unfolding keep
  All-keep test [] h = tt
  All-keep test (x ∷ xs) h = elim (Bool-cases (test x)) [
    | inl e ↦ rw e (h.0, All-keep test xs h.1)
    | inr e ↦ rw e (All-keep test xs h.1)
  ]

module _ {ℓ} {A : Type ℓ} (test : A → Bool) where
  -- `keep` holds exactly the members that pass.
  pub mem_of_mem-keep : (xs : List A) {a : A} → Memᴰ a (keep test xs) → Memᴰ a xs × (test a ≡ true)
  unfolding keep
  mem_of_mem-keep [] m = absurd (Memᴰ.not-nil m)
  mem_of_mem-keep (x ∷ xs) {a} m = elim (Bool-cases (test x)) [
    | inl pass ↦ elim (Memᴰ.cases_cons (rw pass at m)) [
      | inl e ↦ (Memᴰ.head e, ap test e ∙ pass)
      | inr later ↦ let (h, t) = mem_of_mem-keep xs later in (Memᴰ.tail h, t)
    ]
    | inr fail ↦ let (h, t) = mem_of_mem-keep xs (rw fail at m) in (Memᴰ.tail h, t)
  ]

  pub mem-keep_of_mem : {a : A} {xs : List A} → Memᴰ a xs → test a ≡ true → Memᴰ a (keep test xs)
  unfolding keep
  mem-keep_of_mem (Memᴰ.head {x = x} e) t = rw (sym (ap test e) ∙ t) (Memᴰ.head e)
  mem-keep_of_mem (Memᴰ.tail {x = x} m) t = elim (Bool-cases (test x)) [
    | inl pass ↦ rw pass (Memᴰ.tail (mem-keep_of_mem m t))
    | inr fail ↦ rw fail (mem-keep_of_mem m t)
  ]

  pub keep-append : (xs ys : List A) → keep test (xs ++ ys) ≡ keep test xs ++ keep test ys
  unfolding keep
  keep-append [] ys = refl
  keep-append (x ∷ xs) ys = elim (Bool-cases (test x)) [
    | inl e ↦ rw e (ap (◌∷◌ x) (keep-append xs ys))
    | inr e ↦ rw e (keep-append xs ys)
  ]

  pub keep_all : (xs : List A) → ((x : A) → Memᴰ x xs → test x ≡ true) → keep test xs ≡ xs
  unfolding keep
  keep_all [] h = refl
  keep_all (x ∷ xs) h =
      rw (h x (Memᴰ.head refl)) (ap (◌∷◌ x) (keep_all xs (λ y m. h y (Memᴰ.tail m))))

  pub keep_none : (xs : List A) → ((x : A) → Memᴰ x xs → test x ≡ false) → keep test xs ≡ []
  unfolding keep
  keep_none [] h = refl
  keep_none (x ∷ xs) h = rw (h x (Memᴰ.head refl)) (keep_none xs (λ y m. h y (Memᴰ.tail m)))

module _ {ℓ} {A : Type ℓ} (test wide : A → Bool) where
  -- A wider test made before changes nothing.
  pub keep-keep :
      (xs : List A)
      → ((x : A) → test x ≡ true → wide x ≡ true)
      → keep test (keep wide xs) ≡ keep test xs
  unfolding keep
  keep-keep [] h = refl
  keep-keep (x ∷ xs) h = elim (Bool-cases (wide x)) [
    | inl w ↦ elim (Bool-cases (test x)) [
      | inl t ↦ rw (w, t) (ap (◌∷◌ x) (keep-keep xs h))
      | inr t ↦ rw (w, t) (keep-keep xs h)
    ]
    | inr w ↦ elim (Bool-cases (test x)) [
      | inl t ↦ absurd (let w' = h x t in cc)
      | inr t ↦ rw (w, t) (keep-keep xs h)
    ]
  ]
