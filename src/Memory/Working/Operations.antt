-- ===== src/Memory/Working/Operations.antt =====
-- The methods `add`, `update`, `remove`, `clear`, `has_memory`, `get_all`, `get_recent` and
-- `get_important` of types/working.py, and the clean-ups that `add` runs.

use tokenlyfy_v.Support.{
  ℕ, ◌+◌, ◌-◌, ◌*◌, String, Option, none, some, List, [], ◌∷◌, ◌++◌, Bool, true, false, not, ◌==◌,
  length, ltb, leb, eqb, if◌then◌else◌, keep, sum_by, take,
}
use tokenlyfy_v.Support.Text.{Text, count_words}
use tokenlyfy_v.Support.Dict
use tokenlyfy_v.Support.Dict.{Dict}
use tokenlyfy_v.Support.Sort.{sorted}
use tokenlyfy_v.Support.Outcome.{Outcome, ok, raise, other_error}
use tokenlyfy_v.Support.Action.{Action, return, gets, modify, ◌>>=◌, ◌>>◌, while_do}
use tokenlyfy_v.Memory.Base.{Environment}
use tokenlyfy_v.Memory.Working.{
  raised_by, lowered_by, exchanged_by, exceeds, Item, WorkingMemory, now, priority, push_item,
  rebuild_heap, mark_deleted_in_heap,
}

-- `timedelta(minutes=1)`
abbrev pub minute : ℕ
minute = 60_000_000

-- `timedelta(hours=24)`
abbrev pub day : ℕ
day = 24 * 60 * minute

-- `now - age` of a time and a duration: no time stands before the first.
unfoldable pub earlier : (now age : ℕ) → Outcome ℕ
earlier now age = if leb age now then ok (now - age) else raise (other_error "OverflowError")

module _ ⦃env : Environment⦄ where
  open env use {Float, Value, clock, less, equal, times, negate, tenth, infinity}

  abbrev pub tokens : Item → ℕ
  tokens m = count_words m.content

  -- `m.timestamp >= cutoff_time`
  abbrev pub is_fresh : ℕ → Item → Bool
  is_fresh cutoff_time m = leb cutoff_time m.timestamp

  -- `_expire_old_memories` at a reading of the clock
  unfoldable pub expire_at : ℕ → Action WorkingMemory (Unit {0})
  expire_at t s = elim (earlier t (s.max_age_minutes * minute)) [
    | raise e ↦ (raise e, s)
    | ok cutoff_time ↦
        let kept = keep (is_fresh cutoff_time) s.memories in
        let gone = keep (λ m. not (is_fresh cutoff_time m)) s.memories in
        if eqb (length kept) (length s.memories)
        then (ok tt, s)
        else rebuild_heap (record s {
          memories = kept;
          current_tokens = lowered_by (sum_by tokens gone) s.current_tokens;
        })
  ]

  unfoldable pub expire_old_memories : Action WorkingMemory (Unit {0})
  expire_old_memories s = elim s.memories [ [] ↦ (ok tt, s) | m ∷ ms ↦ (do t ← now; expire_at t) s ]

  -- The list without the first item of this identifier, and that item.
  unfoldable pub pop_first : String → List Item → Option (Item × List Item)
  pop_first id [] = none
  pop_first id (m ∷ ms) =
      if m.id == id
      then some (m, ms)
      else elim (pop_first id ms) [ none ↦ none | some (x, rest) ↦ some (x, m ∷ rest) ]

  unfoldable pub remove : String → Action WorkingMemory Bool
  remove id s = elim (pop_first id s.memories) [
    | none ↦ (ok false, s)
    | some (m, rest) ↦
        (do
          modify (λ s. record s { memories = rest })
          mark_deleted_in_heap id
          modify (λ s. record s { current_tokens = lowered_by (tokens m) s.current_tokens })
          return true)
          s
  ]

  -- The loop of `_remove_lowest_priority_memory`: each comparison reads the clock anew.
  unfoldable pub lowest_from : ℕ → Float → Option Item → List Item → Option Item
  lowest_from ticks lowest best [] = best
  lowest_from ticks lowest best (m ∷ ms) =
      let p = priority (clock ticks) m in
      lowest_from (ticks + 1) (if less p lowest then p else lowest)
        (if less p lowest then some m else best) ms

  unfoldable pub remove_lowest_priority_memory : Action WorkingMemory (Unit {0})
  remove_lowest_priority_memory s =
      let s' = record s { ticks = s.ticks + length s.memories } in
      elim (lowest_from s.ticks infinity none s.memories) [
        | none ↦ (ok tt, s')
        | some m ↦ (do remove m.id; return tt) s'
      ]

  -- The two loops of `_enforce_capacity_limits`, with the number of memories and one as fuel.
  unfoldable pub enforce_capacity_limits : Action WorkingMemory (Option (Unit {0}))
  enforce_capacity_limits s =
      let fuel = length s.memories + 1 in
      (do
        counted ←
            while_do fuel (λ s. ltb s.max_capacity (length s.memories))
              remove_lowest_priority_memory
        elim counted [
          | none ↦ return none
          | some u ↦
              while_do fuel (λ s. exceeds s.max_tokens s.current_tokens)
                remove_lowest_priority_memory
        ])
        s

  -- The result is `none` where a loop ran out of fuel.
  unfoldable pub add : Item → Action WorkingMemory (Option String)
  add m = do
    expire_old_memories
    push_item m
    modify (λ s. record s { memories = s.memories ++ m ∷ [] })
    modify (λ s. record s { current_tokens = raised_by (tokens m) s.current_tokens })
    ended ← enforce_capacity_limits
    return (elim ended [ none ↦ none | some u ↦ some m.id ])

  -- `metadata.update(entries)`
  unfoldable pub merge : Dict Value → Dict Value → Dict Value
  merge metadata [] = metadata
  merge metadata ((k, v) ∷ entries) = merge (Dict.put k v metadata) entries

  -- The three optional fields of `update`.
  unfoldable pub changed : Option Text → Option Float → Option (Dict Value) → Item → Item
  changed content importance metadata m = record m {
    content = elim content [ none ↦ m.content | some c ↦ c ];
    importance = elim importance [ none ↦ m.importance | some i ↦ i ];
    metadata = elim metadata [ none ↦ m.metadata | some d ↦ merge m.metadata d ];
  }

  -- The object that `update` finds: the first of this identifier
  unfoldable pub first_of : String → List Item → Option Item
  first_of id [] = none
  first_of id (m ∷ ms) = if m.id == id then some m else first_of id ms

  -- Every entry that is this object shows what it has become.
  unfoldable pub replace_object : ℕ → Item → List Item → List Item
  replace_object object m [] = []
  replace_object object m (x ∷ ms) =
      (if eqb x.object object then m else x) ∷ replace_object object m ms

  unfoldable pub update :
      String → Option Text → Option Float → Option (Dict Value) → Action WorkingMemory Bool
  update id content importance metadata s = elim (first_of id s.memories) [
    | none ↦ (ok false, s)
    | some m ↦
        (do rebuild_heap; return true)
          (record s {
            memories = replace_object m.object (changed content importance metadata m) s.memories;
            current_tokens = elim content [
              | none ↦ s.current_tokens
              | some c ↦ exchanged_by (tokens m) (count_words c) s.current_tokens
            ];
          })
  ]

  unfoldable pub has_memory : String → List Item → Bool
  has_memory id [] = false
  has_memory id (m ∷ ms) = if m.id == id then true else has_memory id ms

  unfoldable pub clear : Action WorkingMemory (Unit {0})
  clear = modify (λ s. record s {
    memories = [];
    memory_heap = [];
    current_tokens = record { gained = 0; lost = 0 };
  })

  unfoldable pub get_all : Action WorkingMemory (List Item)
  get_all = gets (λ s. s.memories)

  -- `sorted(..., reverse=True)[:limit]`: later first, items of one time in their order
  unfoldable pub get_recent : ℕ → Action WorkingMemory (List Item)
  get_recent limit = gets (λ s. take limit (sorted (λ a b. ltb b.timestamp a.timestamp) s.memories))

  unfoldable pub get_important : ℕ → Action WorkingMemory (List Item)
  get_important limit =
      gets (λ s. take limit (sorted (λ a b. less b.importance a.importance) s.memories))
