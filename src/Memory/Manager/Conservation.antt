-- ===== src/Memory/Manager/Conservation.antt =====
-- How many memories `consolidate_memories` of memory/manager.py takes from its source.
use tokenlyfy_v.Support.{ℕ, ◌+◌, ◌<◌, String, some, List, Bool, ◌≡◌, ◌⊎◌, if◌then◌else◌}
use tokenlyfy_v.Support.Dict
use tokenlyfy_v.Support.Dict.{Dict}
use tokenlyfy_v.Support.Outcome.{Outcome, ok, raise, Exception}
use tokenlyfy_v.Support.Action.{Action}
use tokenlyfy_v.Memory.Base.{MemoryItem, Environment}
use tokenlyfy_v.Memory.Manager.{MemoryClass, Stores}

-- What the source memory promises, for the stores of its own class: `remove` returns, and takes out
-- one memory exactly where it returns true; `get_all` returns and takes out none. Stores of other
-- classes are not bound.
pub record Countable ⦃env : Environment⦄ ⦃kind : MemoryClass⦄ : Type 1 where
  pub IsOwn : kind.Store → Type 0
  pub size : kind.Store → ℕ
  pub removes_one :
      (id : String) (store : kind.Store)
      → IsOwn store
      → (found : Bool) × (store' : kind.Store) × (kind.remove id store ≡ (ok found, store'))
        × (size store' + (if found then 1 else 0) ≡ size store)
        × IsOwn store'
  pub lists_all :
      (store : kind.Store)
      → IsOwn store
      → (all : List (MemoryItem env.Float env.Value)) × (store' : kind.Store) × (kind.get_all store
          ≡ (ok all, store'))
        × (size store' ≡ size store)
        × IsOwn store'

module _ ⦃env : Environment⦄ ⦃kind : MemoryClass⦄ (law : Countable)
    (from_type to_type : String) where
  open env use {Float, Value}
  open kind use {Store, add, remove, get_all}

  -- The source has lost `n` memories: as many as the call returns, or, where it raises, at least one.
  abbrev pub Moves : Store → Outcome ℕ × Stores → Type 0
  Moves source out =
      (n : ℕ) × (source' : Store) × (Dict.get from_type out.1 ≡ some source')
      × (law.size source' + n ≡ law.size source)
      × ((out.0 ≡ ok n) ⊎ ((e : Exception) × (out.0 ≡ raise e) × (0 < n)))
