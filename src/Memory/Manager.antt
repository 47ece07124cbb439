-- ===== src/Memory/Manager.antt =====
-- `MemoryManager` of memory/manager.py. What it logs is left out.
pub mod Dispatch
pub mod Consolidation
pub mod Conservation
pub mod Working
mod Tests
use tokenlyfy_v.Support.{
  ℕ, ◌+◌, ◌/◌, max, String, Option, none, some, List, [], ◌∷◌, ◌++◌, Bool, true, false, not, ◌&&◌,
  ◌==◌, if◌then◌else◌, keep, take, length, eqb,
}
use tokenlyfy_v.Support.Dict
use tokenlyfy_v.Support.Dict.{Dict}
use tokenlyfy_v.Support.Sort.{sorted}
use tokenlyfy_v.Support.Text.{Text}
use tokenlyfy_v.Support.Outcome.{Outcome, ok, raise, key_error, other_error}
use tokenlyfy_v.Support.Action.{Action, return, gets, modify, ◌>>=◌, ◌>>◌}
use tokenlyfy_v.Memory.Base.{MemoryItem, Environment}

module _ ⦃env : Environment⦄ where
  open env use {Float, Value}

  -- The methods of `BaseMemory` that the manager calls, on an object of any memory type: `Store` is
  -- the sum of the states of the classes, and each method goes by the class of its object.
  pub record MemoryClass : Type 1 where
    pub Store : Type 0
    pub add : MemoryItem Float Value → Action Store String
    pub update : String → Option Text → Option Float → Option (Dict Value) → Action Store Bool
    pub remove : String → Action Store Bool
    pub has_memory : String → Store → Bool
    pub forget : String → Float → ℕ → Action Store ℕ
    pub get_all : Action Store (List (MemoryItem Float Value))
    pub retrieve : Text → ℕ → Float → String → Action Store (List (MemoryItem Float Value))
    pub clear : Action Store (Unit {0})
    -- `>=` and `* 1.1` on importances
    pub at_least : Float → Float → Bool
    pub boosted : Float → Float

-- What a method of the object at the head ends in, with the object back in its place.
abbrev pub here {ℓ κ} :
    {S : Type ℓ} {A : Type κ} → String → Dict S → Outcome A × S → Outcome A × Dict S
here name rest (outcome, store) = (outcome, (name, store) ∷ rest)

-- What an action on the later entries ends in, with the first entry back before them.
abbrev pub below {ℓ κ} :
    {S : Type ℓ} {A : Type κ} → String × S → Outcome A × Dict S → Outcome A × Dict S
below entry (outcome, rest) = (outcome, entry ∷ rest)

module _ {ℓ κ} {S : Type ℓ} {A : Type κ} where
  -- `self.memory_types[name].method(...)`
  unfoldable pub on_store : String → Action S A → Action (Dict S) A
  on_store name method [] = (raise (key_error name), [])
  on_store name method ((n, store) ∷ rest) =
      let later = on_store name method rest in
      if n == name then here n rest (method store) else below (n, store) later

module _ {ℓ} {S : Type ℓ} where
  -- `for ... in self.memory_types.items(): if test: return method(...)`, and `False` after the loop
  unfoldable pub on_first : (S → Bool) → Action S Bool → Action (Dict S) Bool
  on_first test method [] = (ok false, [])
  on_first test method ((n, store) ∷ rest) =
      let later = on_first test method rest in
      if test store then here n rest (method store) else below (n, store) later

  -- The method of each object in turn, and the sum of what they return; the first that raises ends
  -- the loop.
  unfoldable pub total_of : Action S ℕ → Action (Dict S) ℕ
  total_of method [] = (ok 0, [])
  total_of method ((n, store) ∷ rest) =
      let (outcome, store') = method store in
      let (later, rest') = total_of method rest in
      elim outcome [
        | raise e ↦ (raise e, (n, store') ∷ rest)
        | ok count ↦ elim later [
          | raise e ↦ (raise e, (n, store') ∷ rest')
          | ok total ↦ (ok (count + total), (n, store') ∷ rest')
        ]
      ]

module _ ⦃env : Environment⦄ ⦃kind : MemoryClass⦄ where
  open env use {Float, Value, less}
  open kind use {
    Store, add, update, remove, has_memory, forget, get_all, retrieve, clear, at_least, boosted,
  }

  -- `self.memory_types`
  abbrev pub Stores : Type 0
  Stores = Dict Store

  unfoldable pub update_memory :
      String → Option Text → Option Float → Option (Dict Value) → Action Stores Bool
  update_memory id content importance metadata =
      on_first (has_memory id) (update id content importance metadata)

  unfoldable pub remove_memory : String → Action Stores Bool
  remove_memory id = on_first (has_memory id) (remove id)

  unfoldable pub forget_memories : String → Float → ℕ → Action Stores ℕ
  forget_memories strategy threshold max_age_days =
      total_of (forget strategy threshold max_age_days)

  -- The loop over the candidates: out of the source, changed, and into the target.
  unfoldable pub move_each :
      (from_type to_type : String) → List (MemoryItem Float Value) → Action Stores ℕ
  move_each from_type to_type [] = return 0
  move_each from_type to_type (m ∷ candidates) =
      let rest = move_each from_type to_type candidates in
      (do
        removed ← on_store from_type (remove m.id)
        elim removed [
          | true ↦ (do
            on_store to_type
                (add (record m { memory_type = to_type; importance = boosted m.importance }))
            count ← rest
            return (count + 1))
          | false ↦ rest
        ])

  unfoldable pub consolidate_memories : (from_type to_type : String) → Float → Action Stores ℕ
  consolidate_memories from_type to_type importance_threshold s =
      if not (Dict.has from_type s && Dict.has to_type s)
      then (ok 0, s)
      else (do
        all_memories ← on_store from_type get_all
        move_each from_type to_type
            (keep (λ m. at_least m.importance importance_threshold) all_memories))
          s

  -- `clear` of each object in turn
  unfoldable pub clear_all_memories : Action Stores (Unit {0})
  clear_all_memories [] = (ok tt, [])
  clear_all_memories ((n, store) ∷ rest) =
      let (outcome, store') = clear store in
      let later = clear_all_memories rest in
      elim outcome [ raise e ↦ (raise e, (n, store') ∷ rest) | ok u ↦ below (n, store') later ]

  -- What a call of `retrieve` adds to the results: nothing where it raises.
  abbrev pub found_or_none : Outcome (List (MemoryItem Float Value)) → List (MemoryItem Float Value)
  found_or_none (ok results) = results
  found_or_none (raise e) = []

  unfoldable pub retrieve_each :
      Text → ℕ → Float → String → List String → Action Stores (List (MemoryItem Float Value))
  retrieve_each query limit min_importance user_id [] s = (ok [], s)
  retrieve_each query limit min_importance user_id (name ∷ names) s =
      let (outcome, s') = on_store name (retrieve query limit min_importance user_id) s in
      let after = (if Dict.has name s then s' else s) in
      let results = (if Dict.has name s then found_or_none outcome else []) in
      (do more ← retrieve_each query limit min_importance user_id names; return (results ++ more))
        after

  -- With no memory type to ask, the division of the limit raises.
  unfoldable pub retrieve_memories :
      Text
      → Option (List String)
      → ℕ
      → Float
      → String
      → Action Stores (List (MemoryItem Float Value))
  retrieve_memories query memory_types limit min_importance user_id s =
      let names : List String = elim memory_types [ none ↦ Dict.keys s | some ns ↦ ns ] in
      if eqb (length names) 0
      then (raise (other_error "ZeroDivisionError"), s)
      else (do
        all_results ←
            retrieve_each query (max 1 (limit / length names)) min_importance user_id names
        return (take limit (sorted (λ a b. less b.importance a.importance) all_results)))
          s
