-- ===== src/Memory/Working/Limits.antt =====
-- `_enforce_capacity_limits` ends, and `add` leaves the memory within its limits.
use mathlib.Core.List.{Memᴰ}
use mathlib.Core.List.Memᴰ
use mathlib.Core.Path.{subst}
use tokenlyfy_v.Support.{
  ℕ, ◌+◌, ◌≤◌, ◌<◌, none, some, List, [], ◌∷◌, true, ◌≡◌, refl, sym, ap, length, sum_by, arith,
  Bool-cases, Option-cases, inl, inr, All, All-append, All-left, All-right, ltb, eq_iff, tests,
}
use tokenlyfy_v.Support.Outcome.{ok}
use tokenlyfy_v.Support.Action.{◌>>=◌, while_do_ends}
use tokenlyfy_v.Memory.Base.{Environment}
use tokenlyfy_v.Memory.Working.{
  lowered_by, exceeds, Item, WorkingMemory, priority, mark_deleted_in_heap,
}
use tokenlyfy_v.Memory.Working.Operations.{
  tokens, pop_first, remove, lowest_from, remove_lowest_priority_memory, enforce_capacity_limits,
  has_memory,
}
use tokenlyfy_v.Memory.Working.Counting.{IsCounted}
use tokenlyfy_v.Memory.Working.Popped.{pop_first_found, pop_first_missed, pop_first-sum}

module _ ⦃env : Environment⦄ where
  open env use {Float, less, infinity, clock}

  -- The priority of the item is below infinity at every time: its importance is a finite number.
  abbrev pub IsFinite : Item → Type 0
  IsFinite m = (now : ℕ) → less (priority now m) infinity ≡ true

  lowest_from_best :
      (ticks : ℕ) (lowest : Float) (best : Item) (ms : List Item)
      → (x : Item) × (lowest_from ticks lowest (some best) ms ≡ some x) × Memᴰ x (best ∷ ms)
  unfolding lowest_from
  lowest_from_best ticks lowest best [] = (best, refl, Memᴰ.head refl)
  lowest_from_best ticks lowest best (m ∷ ms) =
      elim (Bool-cases (less (priority (clock ticks) m) lowest)) [
        | inl e ↦
            let (x, eq, here) = lowest_from_best (ticks + 1) (priority (clock ticks) m) m ms in
            (x, rw e eq, Memᴰ.tail here)
        | inr e ↦
            let (x, eq, here) = lowest_from_best (ticks + 1) lowest best ms in
            (
              x,
              rw e eq,
              elim (Memᴰ.cases_cons here) [
                | inl p ↦ Memᴰ.head p
                | inr later ↦ Memᴰ.tail (Memᴰ.tail later)
              ],
            )
      ]

  lowest_from-none :
      (ticks : ℕ) (m : Item) (ms : List Item)
      → IsFinite m
      → (x : Item) × (lowest_from ticks infinity none (m ∷ ms) ≡ some x) × Memᴰ x (m ∷ ms)
  unfolding lowest_from
  lowest_from-none ticks m ms f =
      rw (f (clock ticks)) (lowest_from_best (ticks + 1) (priority (clock ticks) m) m ms)

  has_memory_of_mem : (ms : List Item) (x : Item) → Memᴰ x ms → has_memory x.id ms ≡ true
  unfolding has_memory
  has_memory_of_mem [] x h = absurd (Memᴰ.not-nil h)
  has_memory_of_mem (m ∷ ms) x h = elim (Memᴰ.cases_cons h) [
    | inl e ↦ ground (arith, ap (λ (y : Item). y.id) e, eq_iff m.id x.id)
    | inr later ↦ ground (arith, has_memory_of_mem ms x later)
  ]

  -- What the loops rely on, beside the count: finite priorities and the limits of the start.
  record Holds (base s : WorkingMemory) : Type 0 where
    counted : IsCounted s
    finite : All IsFinite s.memories
    max_capacity : s.max_capacity ≡ base.max_capacity
    max_tokens : s.max_tokens ≡ base.max_tokens
    size : length s.memories ≤ length base.memories

  abbrev Shrinks : WorkingMemory → WorkingMemory → Type 0
  Shrinks base s =
      (s' : WorkingMemory) × (remove_lowest_priority_memory s ≡ (ok tt, s'))
      × Holds base s'
      × (length s'.memories < length s.memories)

  popped-Shrinks :
      (base s : WorkingMemory) (x : Item) (m : Item) (rest : List Item)
      → lowest_from s.ticks infinity none s.memories ≡ some x
      → pop_first x.id s.memories ≡ some (m, rest)
      → Holds base s
      → Shrinks base s
  unfolding remove_lowest_priority_memory remove mark_deleted_in_heap ◌>>=◌
  popped-Shrinks base s x m rest found popped h =
      let r = pop_first_found x.id s.memories m rest popped in
      let (sum, size) = pop_first-sum x.id s.memories m rest popped in
      let finite = subst (All IsFinite) r.whole h.finite in
      (
        record s {
          ticks = s.ticks + length s.memories;
          memories = rest;
          current_tokens = lowered_by (tokens m) s.current_tokens;
        },
        rw (found, remove_lowest_priority_memory, popped, remove) refl,
        record {
          counted = omega (arith, h.counted);
          finite = subst (All IsFinite) (sym r.left) (
              All-append IsFinite r.before r.after (All-left IsFinite r.before (m ∷ r.after) finite)
                (All-right IsFinite r.before (m ∷ r.after) finite).1);
          max_capacity = h.max_capacity;
          max_tokens = h.max_tokens;
          size = omega (arith, h.size);
        },
        omega arith,
      )

  lowest_found :
      (ticks : ℕ) (ms : List Item)
      → 0 < length ms
      → All IsFinite ms
      → (x : Item) × (lowest_from ticks infinity none ms ≡ some x) × (has_memory x.id ms ≡ true)
  lowest_found ticks [] some_left f = absurd (omega arith)
  lowest_found ticks (m ∷ ms) some_left f =
      let (x, eq, here) = lowest_from-none ticks m ms f.0 in
      (x, eq, has_memory_of_mem (m ∷ ms) x here)

  lowest-Shrinks : (base s : WorkingMemory) → Holds base s → 0 < length s.memories → Shrinks base s
  lowest-Shrinks base s h some_left =
      let (x, found, here) = lowest_found s.ticks s.memories some_left h.finite in
      elim (Option-cases (pop_first x.id s.memories)) [
        | inl e ↦ cc (pop_first_missed x.id s.memories e)
        | inr ((m, rest), e) ↦ popped-Shrinks base s x m rest found e h
      ]

  sum_pos : (ms : List Item) (n : ℕ) → n < sum_by tokens ms → 0 < length ms
  sum_pos [] n h = absurd (omega arith)
  sum_pos (m ∷ ms) n h = omega arith

  -- The memory is within the limits on the number of items and of words.
  pub record WithinLimits (s : WorkingMemory) : Type 0 where
    pub capacity : length s.memories ≤ s.max_capacity
    pub words : s.current_tokens.gained ≤ s.max_tokens + s.current_tokens.lost

  -- Both loops end, from any counted state with finite priorities.
  pub enforce_capacity_limits_ends :
      (s : WorkingMemory)
      → IsCounted s
      → All IsFinite s.memories
      → (s' : WorkingMemory) × (enforce_capacity_limits s ≡ (ok (some tt), s'))
        × WithinLimits s'
        × IsCounted s'
  unfolding enforce_capacity_limits ◌>>=◌
  enforce_capacity_limits_ends s c f =
      let fuel = length s.memories + 1 in
      let start : Holds s s = record {
        counted = c;
        finite = f;
        max_capacity = refl;
        max_tokens = refl;
        size = omega arith;
      } in
      let (s', eq, h', fits) =
        while_do_ends {P = Holds s} (λ x. length x.memories)
          (λ x. ltb x.max_capacity (length x.memories)) remove_lowest_priority_memory
          (λ x h t. lowest-Shrinks s x h (omega tests)) fuel s (omega arith) start in
      let (s'', eq', (h'', small), light) =
        while_do_ends {P = λ x. Holds s x × (length x.memories ≤ s.max_capacity)}
          (λ x. length x.memories) (λ x. exceeds x.max_tokens x.current_tokens)
          remove_lowest_priority_memory (λ x h t. lighter x h t) fuel s' (omega (arith, h'.size))
          (h', omega (tests, h'.max_capacity)) in
      (
        s'',
        rw (eq, ◌>>=◌) eq',
        record { capacity = omega (arith, h''.max_capacity); words = omega tests },
        h''.counted,
      )
    where
      lighter :
          (x : WorkingMemory)
          → Holds s x × (length x.memories ≤ s.max_capacity)
          → exceeds x.max_tokens x.current_tokens ≡ true
          → (x' : WorkingMemory) × (remove_lowest_priority_memory x ≡ (ok tt, x'))
            × (Holds s x' × (length x'.memories ≤ s.max_capacity))
            × (length x'.memories < length x.memories)
      lighter x (h, small) t =
          let (x', eq, h', less) =
            lowest-Shrinks s x h (sum_pos x.memories x.max_tokens (omega (tests, h.counted))) in
          (x', eq, (h', omega arith), less)
