-- ===== src/Memory/Manager/Working.antt =====
-- The working memory of types/working.py among the memories of manager.py, beside memories of any
-- other class.
use tokenlyfy_v.Support.{
  ℕ, ◌+◌, String, none, some, List, Bool, true, false, ◌≡◌, ◌⊎◌, inl, inr, refl, ap, length,
  if◌then◌else◌,
}
use tokenlyfy_v.Support.Text.{Text}
use tokenlyfy_v.Support.Outcome.{Outcome, ok, raise, other_error}
use tokenlyfy_v.Support.Action.{Action, return, gets, ◌>>=◌}
use tokenlyfy_v.Memory.Base.{MemoryItem, Environment}
use tokenlyfy_v.Memory.Working.{WorkingMemory}
use tokenlyfy_v.Memory.Working.Operations
use tokenlyfy_v.Memory.Working.Forget
use tokenlyfy_v.Memory.Working.Removal.{remove-length}
use tokenlyfy_v.Memory.Manager.{MemoryClass}
use tokenlyfy_v.Memory.Manager.Conservation.{Countable}

module _ ⦃env : Environment⦄ where
  open env use {Float, Value}

  -- An `add` whose loops do not end stands for an exception of its own.
  unfoldable pub add_or_raise : MemoryItem Float Value → Action WorkingMemory String
  add_or_raise m = do
    added ← Operations.add m
    elim added [ some id ↦ return id | none ↦ λ s. (raise (other_error "no end"), s) ]

  module _ {S T : Type 0} {A : Type 0} where
    abbrev on_left : Outcome A × S → Outcome A × (S ⊎ T)
    on_left (outcome, s) = (outcome, inl s)

    abbrev on_right : Outcome A × T → Outcome A × (S ⊎ T)
    on_right (outcome, t) = (outcome, inr t)

    -- The method of the class that the object has
    abbrev by_class : Action S A → Action T A → Action (S ⊎ T) A
    by_class f g (inl s) = on_left (f s)
    by_class f g (inr t) = on_right (g t)

  module _
      (retrieve : Text → ℕ → Float → String → Action WorkingMemory (List (MemoryItem Float Value)))
      (other : MemoryClass) where
    abbrev own_or : (id : String) → WorkingMemory ⊎ other.Store → Bool
    own_or id (inl s) = Operations.has_memory id s.memories
    own_or id (inr t) = other.has_memory id t

    abbrev pub mixed_class : MemoryClass
    mixed_class = record {
      Store = WorkingMemory ⊎ other.Store;
      add = λ m. by_class (add_or_raise m) (other.add m);
      update = λ id c i d. by_class (Operations.update id c i d) (other.update id c i d);
      remove = λ id. by_class (Operations.remove id) (other.remove id);
      has_memory = own_or;
      forget = λ strategy threshold days.
          by_class (Forget.forget strategy threshold days) (other.forget strategy threshold days);
      get_all = by_class Operations.get_all other.get_all;
      retrieve = λ query limit least user.
          by_class (retrieve query limit least user) (other.retrieve query limit least user);
      clear = by_class Operations.clear other.clear;
      at_least = other.at_least;
      boosted = other.boosted;
    }

    abbrev pub size_of : WorkingMemory ⊎ other.Store → ℕ
    size_of (inl s) = length s.memories
    size_of (inr t) = 0

    -- The object is a working memory.
    abbrev pub IsWorking : WorkingMemory ⊎ other.Store → Type 0
    IsWorking (inl s) = Unit
    IsWorking (inr t) = true ≡ false

    pub remove-IsWorking :
        (id : String) (store : WorkingMemory ⊎ other.Store)
        → IsWorking store
        → (found : Bool) × (store' : WorkingMemory ⊎ other.Store) × (mixed_class.remove id store
            ≡ (ok found, store'))
          × (size_of store' + (if found then 1 else 0) ≡ size_of store)
          × IsWorking store'
    remove-IsWorking id (inl s) own =
        let (found, s', eq, count) = remove-length id s in (found, inl s', ap on_left eq, count, tt)
    remove-IsWorking id (inr t) own = cc own

    pub get_all-IsWorking :
        (store : WorkingMemory ⊎ other.Store)
        → IsWorking store
        → (all : List (MemoryItem Float Value)) × (store' : WorkingMemory ⊎ other.Store)
          × (mixed_class.get_all store ≡ (ok all, store'))
          × (size_of store' ≡ size_of store)
          × IsWorking store'
    unfolding Operations.get_all gets
    get_all-IsWorking (inl s) own = (s.memories, inl s, refl, refl, tt)
    get_all-IsWorking (inr t) own = cc own

    -- A working memory keeps the promise of a source of `consolidate_memories`, whatever stands
    -- beside it.
    abbrev pub mixed_class-Countable : Countable ⦃kind = mixed_class⦄
    mixed_class-Countable = record {
      IsOwn = IsWorking;
      size = size_of;
      removes_one = remove-IsWorking;
      lists_all = get_all-IsWorking;
    }
