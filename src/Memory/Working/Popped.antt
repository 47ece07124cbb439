-- ===== src/Memory/Working/Popped.antt =====
-- The search for the first item of an identifier, in `remove` of types/working.py.

use tokenlyfy_v.Support.{
  ◌+◌, String, none, some, List, [], ◌∷◌, ◌++◌, false, ◌==◌, ◌≡◌, refl, sym, ap, ◌∙◌, length,
  sum_by, sum_by-append, length-append, eq_iff, arith, Bool-cases, Option-cases, inl, inr,
}
use tokenlyfy_v.Memory.Base.{Environment}
use tokenlyfy_v.Memory.Working.{Item}
use tokenlyfy_v.Memory.Working.Operations.{tokens, pop_first, has_memory}

module _ ⦃env : Environment⦄ where
  -- The item that is taken out is the first of its identifier; the others stay in their order.
  pub record IsPopped (id : String) (ms : List Item) (m : Item) (rest : List Item) : Type 0 where
    pub before : List Item
    pub after : List Item
    pub whole : ms ≡ before ++ m ∷ after
    pub left : rest ≡ before ++ after
    pub named : m.id ≡ id
    pub first : has_memory id before ≡ false

  pub pop_first_found :
      (id : String) (ms : List Item) (m : Item) (rest : List Item)
      → pop_first id ms ≡ some (m, rest)
      → IsPopped id ms m rest
  unfolding pop_first has_memory
  pop_first_found id [] m rest h = cc
  pop_first_found id (x ∷ ms) m rest h = elim (Bool-cases (x.id == id)) [
    | inl e ↦
        let taken : (x ≡ m) × (ms ≡ rest) = ground arith in
        record {
          before = [];
          after = ms;
          whole = ap (λ y. y ∷ ms) taken.0;
          left = sym taken.1;
          named = sym (ap (λ (y : Item). y.id) taken.0) ∙ (eq_iff x.id id).0 e;
          first = refl;
        }
    | inr e ↦ elim (Option-cases (pop_first id ms)) [
      | inl n ↦ absurd (ground arith)
      | inr ((y, ys), n) ↦
          let taken : (y ≡ m) × (rest ≡ x ∷ ys) = ground arith in
          let r = pop_first_found id ms y ys n in
          record {
            before = x ∷ r.before;
            after = r.after;
            whole = ap (◌∷◌ x) (r.whole ∙ ap (λ z. r.before ++ z ∷ r.after) taken.0);
            left = taken.1 ∙ ap (◌∷◌ x) r.left;
            named = sym (ap (λ (y : Item). y.id) taken.0) ∙ r.named;
            first = rw e r.first;
          }
    ]
  ]

  pub pop_first_missed :
      (id : String) (ms : List Item) → pop_first id ms ≡ none → has_memory id ms ≡ false
  unfolding pop_first has_memory
  pop_first_missed id [] h = refl
  pop_first_missed id (x ∷ ms) h = ground (arith, pop_first_missed id ms)

  pub pop_first-sum :
      (id : String) (ms : List Item) (m : Item) (rest : List Item)
      → pop_first id ms ≡ some (m, rest)
      → (sum_by tokens ms ≡ sum_by tokens rest + tokens m) × (length ms ≡ length rest + 1)
  pop_first-sum id ms m rest h =
      let r = pop_first_found id ms m rest h in
      (
        omega (
          arith,
          ap (sum_by tokens) r.whole,
          ap (sum_by tokens) r.left,
          sum_by-append tokens r.before r.after,
          sum_by-append tokens r.before (m ∷ r.after),
        ),
        omega (
          arith,
          ap length r.whole,
          ap length r.left,
          length-append r.before r.after,
          length-append r.before (m ∷ r.after),
        ),
      )
