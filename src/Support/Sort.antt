-- ===== src/Support/Sort.antt =====
-- Python's stable `sorted(items, key=...)` for keys that are totally ordered, by insertion.

use mathlib.Core.Bool.{Bool}
use mathlib.Core.List.{List, [], ◌∷◌, Perm, Memᴰ}
use mathlib.Core.List.Perm
use mathlib.Core.List.Memᴰ
use tokenlyfy_v.Support.Tests.{if◌then◌else◌, Bool-cases}
use mathlib.Core.Logic.{inl, inr}

module _ {ℓ} {A : Type ℓ} (before : A → A → Bool) where
  -- In front of the first item that does not come strictly before it.
  unfoldable pub insert_sorted : A → List A → List A
  insert_sorted x [] = x ∷ []
  insert_sorted x (y ∷ ys) = if before y x then y ∷ insert_sorted x ys else x ∷ y ∷ ys

  unfoldable pub sorted : List A → List A
  unfolding insert_sorted
  sorted [] = []
  sorted (x ∷ xs) = insert_sorted x (sorted xs)

  insert_sorted-perm : (x : A) (ys : List A) → Perm (insert_sorted x ys) (x ∷ ys)
  unfolding insert_sorted
  insert_sorted-perm x [] = Perm.rfl
  insert_sorted-perm x (y ∷ ys) = elim (Bool-cases (before y x)) [
    | inl e ↦ rw e (Perm.trans (Perm.cons y (insert_sorted-perm x ys)) (Perm.swap x y ys))
    | inr e ↦ rw e Perm.rfl
  ]

  pub sorted-perm : (xs : List A) → Perm (sorted xs) xs
  unfolding sorted
  sorted-perm [] = Perm.rfl
  sorted-perm (x ∷ xs) =
      Perm.trans (insert_sorted-perm x (sorted xs)) (Perm.cons x (sorted-perm xs))

  mem-insert_sorted_of_mem :
      {a : A} (x : A) (ys : List A) → Memᴰ a (x ∷ ys) → Memᴰ a (insert_sorted x ys)
  unfolding insert_sorted
  mem-insert_sorted_of_mem x [] m = m
  mem-insert_sorted_of_mem x (y ∷ ys) m = elim (Bool-cases (before y x)) [
    | inr e ↦ rw e m
    | inl e ↦ rw e (elim (Memᴰ.cases_cons m) [
      | inl same ↦ Memᴰ.tail (mem-insert_sorted_of_mem x ys (Memᴰ.head same))
      | inr later ↦ elim (Memᴰ.cases_cons later) [
        | inl same ↦ Memᴰ.head same
        | inr deep ↦ Memᴰ.tail (mem-insert_sorted_of_mem x ys (Memᴰ.tail deep))
      ]
    ])
  ]

  mem_of_mem-insert_sorted :
      {a : A} (x : A) (ys : List A) → Memᴰ a (insert_sorted x ys) → Memᴰ a (x ∷ ys)
  unfolding insert_sorted
  mem_of_mem-insert_sorted x [] m = m
  mem_of_mem-insert_sorted x (y ∷ ys) m = elim (Bool-cases (before y x)) [
    | inr e ↦ rw e at m
    | inl e ↦ elim (Memᴰ.cases_cons (rw e at m)) [
      | inl same ↦ Memᴰ.tail (Memᴰ.head same)
      | inr later ↦ elim (Memᴰ.cases_cons (mem_of_mem-insert_sorted x ys later)) [
        | inl same ↦ Memᴰ.head same
        | inr deep ↦ Memᴰ.tail (Memᴰ.tail deep)
      ]
    ]
  ]

  pub mem-sorted_of_mem : {a : A} (xs : List A) → Memᴰ a xs → Memᴰ a (sorted xs)
  unfolding sorted
  mem-sorted_of_mem [] m = m
  mem-sorted_of_mem (x ∷ xs) m = mem-insert_sorted_of_mem x (sorted xs) (elim (Memᴰ.cases_cons m) [
    | inl same ↦ Memᴰ.head same
    | inr later ↦ Memᴰ.tail (mem-sorted_of_mem xs later)
  ])

  pub mem_of_mem-sorted : {a : A} (xs : List A) → Memᴰ a (sorted xs) → Memᴰ a xs
  unfolding sorted
  mem_of_mem-sorted [] m = m
  mem_of_mem-sorted (x ∷ xs) m = elim (Memᴰ.cases_cons (mem_of_mem-insert_sorted x (sorted xs) m)) [
    | inl same ↦ Memᴰ.head same
    | inr later ↦ Memᴰ.tail (mem_of_mem-sorted xs later)
  ]
