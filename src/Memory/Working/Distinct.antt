-- ===== src/Memory/Working/Distinct.antt =====
-- Removals by identifier, in types/working.py, from memories that have identifiers of their own.
use mathlib.Core.Path.{subst}
use tokenlyfy_v.Support.{
  ℕ, ◌+◌, String, none, some, List, [], ◌∷◌, ◌++◌, Bool, true, false, not, ◌&&◌, ◌||◌, ◌==◌, ◌≡◌,
  refl, sym, ap, ◌∙◌, if◌then◌else◌, keep, arith, Bool-cases, Option-cases, inl, inr, All, eq_iff,
  eq_refl,
}
use tokenlyfy_v.Support.Outcome.{Outcome, ok, raise}
use tokenlyfy_v.Support.Action.{return, ◌>>=◌, continue}
use tokenlyfy_v.Memory.Base.{Environment}
use tokenlyfy_v.Memory.Working.{lowered_by, Item, WorkingMemory, mark_deleted_in_heap}
use tokenlyfy_v.Memory.Working.Operations.{tokens, pop_first, remove, has_memory}
use tokenlyfy_v.Memory.Working.Forget.{ids, remove_each}

unfoldable pub listed : String → List String → Bool
listed id [] = false
listed id (k ∷ ks) = if k == id then true else listed id ks

module _ ⦃env : Environment⦄ where
  abbrev pub AreDistinct : List Item → Type 0
  AreDistinct [] = Unit
  AreDistinct (m ∷ ms) = (has_memory m.id ms ≡ false) × AreDistinct ms

  has_memory-keep :
      (test : Item → Bool) (id : String) (ms : List Item)
      → has_memory id ms ≡ false
      → has_memory id (keep test ms) ≡ false
  unfolding has_memory keep
  has_memory-keep test id [] h = refl
  has_memory-keep test id (m ∷ ms) h = ground (arith, has_memory-keep test id ms)

  keep-AreDistinct :
      (test : Item → Bool) (ms : List Item) → AreDistinct ms → AreDistinct (keep test ms)
  unfolding keep
  keep-AreDistinct test [] h = tt
  keep-AreDistinct test (m ∷ ms) h = elim (Bool-cases (test m)) [
    | inl e ↦ rw e (has_memory-keep test m.id ms h.0, keep-AreDistinct test ms h.1)
    | inr e ↦ rw e (keep-AreDistinct test ms h.1)
  ]

  keep_twice : (p q : Item → Bool) (ms : List Item) → keep p (keep q ms) ≡ keep (λ m. q m && p m) ms
  unfolding keep
  keep_twice p q [] = refl
  keep_twice p q (m ∷ ms) = elim (Bool-cases (q m)) [
    | inl e ↦ elim (Bool-cases (p m)) [
      | inl e' ↦ rw (e, e') (ap (◌∷◌ m) (keep_twice p q ms))
      | inr e' ↦ rw (e, e') (keep_twice p q ms)
    ]
    | inr e ↦ rw e (keep_twice p q ms)
  ]

  pub keep-same :
      (p q : Item → Bool) (ms : List Item) → All (λ m. p m ≡ q m) ms → keep p ms ≡ keep q ms
  unfolding keep
  keep-same p q [] h = refl
  keep-same p q (m ∷ ms) h = elim (Bool-cases (q m)) [
    | inl e ↦ rw (h.0, e) (ap (◌∷◌ m) (keep-same p q ms h.1))
    | inr e ↦ rw (h.0, e) (keep-same p q ms h.1)
  ]

  keep-absent :
      (id : String) (ms : List Item)
      → has_memory id ms ≡ false
      → keep (λ m. not (m.id == id)) ms ≡ ms
  unfolding has_memory keep
  keep-absent id [] h = refl
  keep-absent id (m ∷ ms) h = elim (Bool-cases (m.id == id)) [
    | inl e ↦ absurd (ground arith)
    | inr e ↦ rw e (ap (◌∷◌ m) (keep-absent id ms (ground arith)))
  ]

  -- What is left is what has another identifier.
  abbrev remaining : String → List Item → List Item
  remaining id ms = elim (pop_first id ms) [ none ↦ ms | some (m, rest) ↦ rest ]

  remaining-keep :
      (id : String) (ms : List Item)
      → AreDistinct ms
      → remaining id ms ≡ keep (λ m. not (m.id == id)) ms
  unfolding pop_first keep
  remaining-keep id [] h = refl
  remaining-keep id (m ∷ ms) h = elim (Bool-cases (m.id == id)) [
    | inl e ↦
        let absent : has_memory id ms ≡ false =
          ap (λ i. has_memory i ms) (sym ((eq_iff m.id id).0 e)) ∙ h.0 in
        rw (remaining, e) (sym (keep-absent id ms absent))
    | inr e ↦ elim (Option-cases (pop_first id ms)) [
      | inl n ↦ rw (remaining, e, n) (ap (◌∷◌ m) (left n ∙ remaining-keep id ms h.1))
      | inr ((x, rest), n) ↦
          rw (remaining, e, n) (ap (◌∷◌ m) (left' x rest n ∙ remaining-keep id ms h.1))
    ]
  ]
    where
      left : pop_first id ms ≡ none → ms ≡ remaining id ms
      left n = rw (remaining, n) refl

      left' :
          (x : Item) (rest : List Item) → pop_first id ms ≡ some (x, rest) → rest ≡ remaining id ms
      left' x rest n = rw (remaining, n) refl

  remove-remaining :
      (id : String) (s : WorkingMemory)
      → (found : Bool) × (s' : WorkingMemory) × (remove id s ≡ (ok found, s'))
        × (s'.memories ≡ remaining id s.memories)
  unfolding remove mark_deleted_in_heap ◌>>=◌
  remove-remaining id s = elim (Option-cases (pop_first id s.memories)) [
    | inl e ↦ (false, s, rw (e, remove) refl, rw (remaining, e) refl)
    | inr ((m, rest), e) ↦ (
      true,
      record s { memories = rest; current_tokens = lowered_by (tokens m) s.current_tokens },
      rw (e, remove) refl,
      rw (remaining, e) refl,
    )
  ]

  keep-everything : (ms : List Item) → keep (λ m. not (listed m.id [])) ms ≡ ms
  unfolding keep listed
  keep-everything [] = refl
  keep-everything (m ∷ ms) = ap (◌∷◌ m) (keep-everything ms)

  both :
      (x : String) (xs : List String) (ms : List Item)
      → All (λ m. not (m.id == x) && not (listed m.id xs) ≡ not (listed m.id (x ∷ xs))) ms
  unfolding listed
  both x xs [] = tt
  both x xs (m ∷ ms) = (ground (arith, eq_iff m.id x, eq_iff x m.id), both x xs ms)

  counted :
      (found : Bool) (r : Outcome ℕ × WorkingMemory)
      → (continue r.0 (λ count. return (if found then count + 1 else count)) r.1).1.memories
        ≡ r.1.memories
  unfolding return
  counted found (ok n, s) = refl
  counted found (raise e, s) = refl

  -- The removals leave what is not listed.
  pub remove_each-keep :
      (xs : List String) (s : WorkingMemory)
      → AreDistinct s.memories
      → (remove_each xs s).1.memories ≡ keep (λ m. not (listed m.id xs)) s.memories
  unfolding remove_each listed ◌>>=◌
  remove_each-keep [] s h = sym (keep-everything s.memories)
  remove_each-keep (x ∷ xs) s h =
      let (found, s', eq, left) = remove-remaining x s in
      let left' = left ∙ remaining-keep x s.memories h in
      let distinct : AreDistinct s'.memories =
        subst AreDistinct (sym left') (keep-AreDistinct (λ m. not (m.id == x)) s.memories h) in
      rw (eq, ◌>>=◌)
        (counted found (remove_each xs s')
          ∙ remove_each-keep xs s' distinct
          ∙ ap (keep (λ m. not (listed m.id xs))) left'
          ∙ keep_twice (λ m. not (listed m.id xs)) (λ m. not (m.id == x)) s.memories
          ∙ keep-same _ _ s.memories (both x xs s.memories))

  listed-absent :
      (test : Item → Bool) (id : String) (ms : List Item)
      → has_memory id ms ≡ false
      → listed id (ids (keep test ms)) ≡ false
  unfolding has_memory keep listed
  listed-absent test id [] h = refl
  listed-absent test id (m ∷ ms) h = ground (arith, listed-absent test id ms)

  listed_later :
      (test : Item → Bool) (k : String) (rest : List String) (ms : List Item)
      → has_memory k ms ≡ false
      → All (λ m. listed m.id rest ≡ test m) ms
      → All (λ m. listed m.id (k ∷ rest) ≡ test m) ms
  unfolding has_memory listed
  listed_later test k rest [] absent h = tt
  listed_later test k rest (m ∷ ms) absent h = elim (Bool-cases (m.id == k)) [
    | inl e ↦ absurd (ground arith)
    | inr e ↦
        let other : (k == m.id) ≡ false = ground (arith, e, eq_iff m.id k, eq_iff k m.id) in
        (rw other h.0, listed_later test k rest ms (ground arith) h.1)
  ]

  -- Of distinct memories, those that pass a test are the ones whose identifiers it lists.
  pub listed-ids :
      (test : Item → Bool) (ms : List Item)
      → AreDistinct ms
      → All (λ m. listed m.id (ids (keep test ms)) ≡ test m) ms
  unfolding listed keep
  listed-ids test [] h = tt
  listed-ids test (m ∷ ms) h = elim (Bool-cases (test m)) [
    | inl e ↦
        let kept : keep test (m ∷ ms) ≡ m ∷ keep test ms = rw e refl in
        subst (λ xs. All (λ x. listed x.id (ids xs) ≡ test x) (m ∷ ms)) (sym kept)
          (
            rw (eq_refl m.id) (sym e),
            listed_later test m.id (ids (keep test ms)) ms h.0 (listed-ids test ms h.1),
          )
    | inr e ↦
        let kept : keep test (m ∷ ms) ≡ keep test ms = rw e refl in
        subst (λ xs. All (λ x. listed x.id (ids xs) ≡ test x) (m ∷ ms)) (sym kept)
          (listed-absent test m.id ms h.0 ∙ sym e, listed-ids test ms h.1)
  ]

  listed-append :
      (id : String) (xs ys : List String) → listed id (xs ++ ys) ≡ listed id xs || listed id ys
  unfolding listed
  listed-append id [] ys = refl
  listed-append id (x ∷ xs) ys = ground (arith, listed-append id xs ys)

  pub listed_both :
      (p q : Item → Bool) (xs ys : List String) (ms : List Item)
      → All (λ m. listed m.id xs ≡ p m) ms
      → All (λ m. listed m.id ys ≡ q m) ms
      → All (λ m. not (listed m.id (xs ++ ys)) ≡ not (p m) && not (q m)) ms
  listed_both p q xs ys [] h k = tt
  listed_both p q xs ys (m ∷ ms) h k =
      (ground (arith, listed-append m.id xs ys, h.0, k.0), listed_both p q xs ys ms h.1 k.1)
