-- ===== src/Memory/Working/Removal.antt =====
-- What `remove` of types/working.py takes out, and what a sequence of removals counts.
use tokenlyfy_v.Support.{
  ℕ, ◌+◌, String, none, List, [], ◌∷◌, Bool, true, false, ◌≡◌, refl, length, if◌then◌else◌, arith,
  Option-cases, inl, inr,
}
use tokenlyfy_v.Support.Outcome.{Outcome, ok}
use tokenlyfy_v.Support.Action.{◌>>=◌}
use tokenlyfy_v.Memory.Base.{Environment}
use tokenlyfy_v.Memory.Working.{lowered_by, Item, WorkingMemory, mark_deleted_in_heap}
use tokenlyfy_v.Memory.Working.Operations.{tokens, pop_first, remove, has_memory}
use tokenlyfy_v.Memory.Working.Popped.{IsPopped, pop_first_found, pop_first_missed, pop_first-sum}
use tokenlyfy_v.Memory.Working.Forget.{remove_each}

module _ ⦃env : Environment⦄ where
  missing_unpopped :
      (id : String) (ms : List Item) → has_memory id ms ≡ false → pop_first id ms ≡ none
  unfolding pop_first has_memory
  missing_unpopped id [] h = refl
  missing_unpopped id (m ∷ ms) h = ground (arith, missing_unpopped id ms)

  -- `remove` takes out the first memory of the identifier, with its words, and nothing else; it
  -- returns false, and changes nothing, exactly where there is none. The heap keeps its entries.
  pub remove_result :
      (id : String) (s : WorkingMemory)
      → (has_memory id s.memories ≡ false → remove id s ≡ (ok false, s))
        × (has_memory id s.memories ≡ true
            → (m : Item) × (rest : List Item) × (remove id s ≡ (
              ok true,
              record s { memories = rest; current_tokens = lowered_by (tokens m) s.current_tokens },
            ))
              × IsPopped id s.memories m rest)
  unfolding remove mark_deleted_in_heap ◌>>=◌
  remove_result id s = (
    λ h. rw (missing_unpopped id s.memories h, remove) refl,
    λ h. elim (Option-cases (pop_first id s.memories)) [
      | inl e ↦ cc (pop_first_missed id s.memories e)
      | inr ((m, rest), e) ↦ (m, rest, rw (e, remove) refl, pop_first_found id s.memories m rest e)
    ],
  )

  -- An action that returns a number, which is the number of memories that are gone.
  abbrev pub Counts : Outcome ℕ × WorkingMemory → WorkingMemory → Type 0
  Counts r s =
      (n : ℕ) × (s' : WorkingMemory) × (r ≡ (ok n, s'))
      × (length s'.memories + n ≡ length s.memories)

  pub remove-length :
      (id : String) (s : WorkingMemory)
      → (found : Bool) × (s' : WorkingMemory) × (remove id s ≡ (ok found, s'))
        × (length s'.memories + (if found then 1 else 0) ≡ length s.memories)
  unfolding remove mark_deleted_in_heap ◌>>=◌
  remove-length id s = elim (Option-cases (pop_first id s.memories)) [
    | inl e ↦ (false, s, rw (e, remove) refl, omega arith)
    | inr ((m, rest), e) ↦ (
      true,
      record s { memories = rest; current_tokens = lowered_by (tokens m) s.current_tokens },
      rw (e, remove) refl,
      omega (arith, pop_first-sum id s.memories m rest e),
    )
  ]

  by_found :
      (a b c n : ℕ) (found : Bool)
      → b + (if found then 1 else 0) ≡ a
      → c + n ≡ b
      → c + (if found then n + 1 else n) ≡ a
  by_found a b c n true p q = omega arith
  by_found a b c n false p q = omega arith

  pub remove_each_count : (xs : List String) (s : WorkingMemory) → Counts (remove_each xs s) s
  unfolding remove_each ◌>>=◌
  remove_each_count [] s = (0, s, refl, omega arith)
  remove_each_count (x ∷ xs) s =
      let (found, s', eq, one) = remove-length x s in
      let (n, s'', eq', more) = remove_each_count xs s' in
      (
        if found then n + 1 else n,
        s'',
        rw (eq, ◌>>=◌, eq') refl,
        by_found (length s.memories) (length s'.memories) (length s''.memories) n found one more,
      )
