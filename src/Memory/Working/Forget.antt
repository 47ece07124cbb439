-- ===== src/Memory/Working/Forget.antt =====
-- `forget` of types/working.py.
use tokenlyfy_v.Support.{
  ℕ, ◌+◌, ◌-◌, ◌*◌, String, List, [], ◌∷◌, ◌++◌, not, ◌==◌, length, ltb, if◌then◌else◌, keep, take,
  map,
}
use tokenlyfy_v.Support.Sort.{sorted}
use tokenlyfy_v.Support.Outcome.{ok, raise}
use tokenlyfy_v.Support.Action.{Action, return, gets, ◌>>=◌}
use tokenlyfy_v.Memory.Base.{Environment}
use tokenlyfy_v.Memory.Working.{Item, WorkingMemory, now, calculate_priority}
use tokenlyfy_v.Memory.Working.Operations.{minute, day, earlier, is_fresh, remove}

module _ ⦃env : Environment⦄ where
  open env use {Float, clock, less}

  abbrev pub ids : List Item → List String
  ids = map (λ m. m.id)

  -- `sorted(self.memories, key=self._calculate_priority)` computes the keys in order.
  unfoldable pub keyed : List Item → Action WorkingMemory (List (Float × Item))
  keyed [] = return []
  keyed (m ∷ ms) = do p ← calculate_priority m; rest ← keyed ms; return ((p, m) ∷ rest)

  -- The identifiers that the strategy adds; another strategy adds none.
  unfoldable pub chosen : String → Float → ℕ → ℕ → Action WorkingMemory (List String)
  chosen strategy threshold max_age_days current_time s =
      if strategy == "importance_based"
      then (ok (ids (keep (λ m. less m.importance threshold) s.memories)), s)
      else if strategy == "time_based"
      then elim (earlier current_time (max_age_days * day)) [
        | raise e ↦ (raise e, s)
        | ok cutoff_time ↦ (ok (ids (keep (λ m. ltb m.timestamp cutoff_time) s.memories)), s)
      ]
      else if strategy == "capacity_based"
      then if ltb s.max_capacity (length s.memories)
        then (do
          pairs ← keyed s.memories
          return (
              take (length s.memories - s.max_capacity)
                (ids (map (λ e. e.1) (sorted (λ a b. less a.0 b.0) pairs)))))
            s
        else (ok [], s)
      else (ok [], s)

  -- The removals, with the number of those that found their item.
  unfoldable pub remove_each : List String → Action WorkingMemory ℕ
  remove_each [] = return 0
  remove_each (id ∷ rest) = do
    found ← remove id
    count ← remove_each rest
    return (if found then count + 1 else count)

  -- The items past their time go first, whatever the strategy.
  unfoldable pub forget : String → Float → ℕ → Action WorkingMemory ℕ
  forget strategy threshold max_age_days = do
    current_time ← now
    cutoff_ttl ← λ s. (earlier current_time (s.max_age_minutes * minute), s)
    expired ← gets (λ s. ids (keep (λ m. not (is_fresh cutoff_ttl m)) s.memories))
    more ← chosen strategy threshold max_age_days current_time
    remove_each (expired ++ more)
