-- ===== src/Memory/Working.antt =====
-- `WorkingMemory` of memory/types/working.py: its state, its priorities and its heap. The
-- operations are in `Operations` and `Forget`.
pub mod Operations
pub mod Forget
mod Frame
mod Heap
pub mod Popped
pub mod Counting
pub mod History
pub mod Limits
pub mod Adding
pub mod Raising
pub mod Removal
mod Distinct
pub mod Forgetting
pub mod Summary
mod Tests
use tokenlyfy_v.Support.{
  ℕ, zero, suc, ◌+◌, ◌-◌, ◌*◌, ◌/◌, String, Option, none, some, List, [], ◌∷◌, ◌++◌, Bool, true,
  false, length, get_elem?, set, ltb, leb, eqb, if◌then◌else◌,
}
use tokenlyfy_v.Support.Outcome.{Outcome, ok, raise, type_error, index_error}
use tokenlyfy_v.Support.Action.{Action, return, gets, modify, ◌>>=◌, ◌>>◌, for_each}
use tokenlyfy_v.Memory.Base.{MemoryItem, Environment}

-- An integer, as a difference: `current_tokens` falls below 0 where an update loses count.
pub record Count : Type 0 where
  pub gained : ℕ
  pub lost : ℕ

-- `count + n`
abbrev pub raised_by : ℕ → Count → Count
raised_by n c = record c { gained = c.gained + n }

-- `max(0, count - n)`
abbrev pub lowered_by : ℕ → Count → Count
lowered_by n c = record { gained = c.gained - (c.lost + n); lost = 0 }

-- `count - old + new`
abbrev pub exchanged_by : (old new : ℕ) → Count → Count
exchanged_by old new c = record { gained = c.gained + new; lost = c.lost + old }

-- `count > n`
abbrev pub exceeds : ℕ → Count → Bool
exceeds n c = ltb (n + c.lost) c.gained

module _ ⦃env : Environment⦄ where
  open env use {Float, Value, clock, less, equal, times, negate, tenth, infinity, decay, same_item}

  abbrev pub Item : Type 0
  Item = MemoryItem Float Value

  -- What the heap holds: `(-priority, timestamp, memory_item)`.
  pub record Entry : Type 0 where
    pub key : Float
    pub stamp : ℕ
    pub item : Item

  pub record WorkingMemory : Type 0 where
    pub max_capacity : ℕ
    pub max_tokens : ℕ
    pub max_age_minutes : ℕ
    pub current_tokens : Count
    pub memories : List Item
    pub memory_heap : List Entry
    -- how often the clock was read
    pub ticks : ℕ

  -- `datetime.now()`
  unfoldable pub now : Action WorkingMemory ℕ
  now s = (ok (clock s.ticks), record s { ticks = s.ticks + 1 })

  -- `max(0.1, decay_factor)`
  unfoldable pub time_decay : ℕ → ℕ → Float
  time_decay now timestamp =
      let factor = decay now timestamp in if less tenth factor then factor else tenth

  -- `_calculate_priority` at a reading of the clock
  unfoldable pub priority : ℕ → Item → Float
  priority now m = times m.importance (time_decay now m.timestamp)

  unfoldable pub calculate_priority : Item → Action WorkingMemory Float
  calculate_priority m = do t ← now; return (priority t m)

  -- `a < b` on the tuples. Items have no order, so a tie on the first two raises, unless the items
  -- are equal too.
  unfoldable pub entry_less : Entry → Entry → Outcome Bool
  entry_less a b =
      if equal a.key b.key
      then if eqb a.stamp b.stamp
        then if same_item a.item b.item then ok false else raise type_error
        else ok (ltb a.stamp b.stamp)
      else ok (less a.key b.key)

  -- `heapq`'s sift towards the root: the entry at `pos` is exchanged with its parent while it is
  -- less. `rounds` is `pos`, which falls in each round. A comparison that raises ends the sift.
  unfoldable pub sift : ℕ → List Entry → ℕ → Outcome (Unit {0}) × List Entry
  sift zero heap pos = (ok tt, heap)
  sift (suc rounds) heap pos =
      let parent = (pos - 1) / 2 in
      let above = (λ (a b : Entry). sift rounds (set (set heap pos b) parent a) parent) in
      if eqb pos 0 then (ok tt, heap) else elim (get_elem? heap pos) [
        | none ↦ (raise index_error, heap)
        | some a ↦ elim (get_elem? heap parent) [
          | none ↦ (raise index_error, heap)
          | some b ↦ elim (entry_less a b) [
            | raise e ↦ (raise e, heap)
            | ok smaller ↦ if smaller then above a b else (ok tt, heap)
          ]
        ]
      ]

  -- `heapq.heappush(self.memory_heap, entry)`
  unfoldable pub heappush : Entry → Action WorkingMemory (Unit {0})
  heappush entry s =
      let n = length s.memory_heap in
      let (result, heap) = sift n (s.memory_heap ++ entry ∷ []) n in
      (result, record s { memory_heap = heap })

  unfoldable pub push_item : Item → Action WorkingMemory (Unit {0})
  push_item m = do
    p ← calculate_priority m
    heappush (record { key = negate p; stamp = m.timestamp; item = m })

  -- `_update_heap_priority`, which is also how `_expire_old_memories` rebuilds the heap
  unfoldable pub rebuild_heap : Action WorkingMemory (Unit {0})
  rebuild_heap = do
    modify (λ s. record s { memory_heap = [] })
    memories ← gets (λ s. s.memories)
    for_each push_item memories

  -- `_mark_deleted_in_heap`, whose body is `pass`
  unfoldable pub mark_deleted_in_heap : String → Action WorkingMemory (Unit {0})
  mark_deleted_in_heap id = return tt
