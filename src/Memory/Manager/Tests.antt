-- ===== src/Memory/Manager/Tests.antt =====
-- A manager of a working memory and of a long-term memory that keeps no promise.
use tokenlyfy_v.Support.{ℕ, String, List, [], ◌∷◌, false, inl, inr, ◌≡◌, refl, leb, keep}
use tokenlyfy_v.Support.Dict
use tokenlyfy_v.Support.Dict.{Dict}
use tokenlyfy_v.Support.Outcome.{ok, raise, type_error}
use tokenlyfy_v.Memory.Base.{MemoryItem}
use tokenlyfy_v.Memory.Samples.{tenths, started}
use tokenlyfy_v.Memory.Manager.{MemoryClass, Stores, on_store, move_each, consolidate_memories}
use tokenlyfy_v.Memory.Manager.Working.{add_or_raise, mixed_class}
use tokenlyfy_v.Support.Sort.{insert_sorted, sorted}
use tokenlyfy_v.Support.Text.{Text, is_space, count_words, words_from}
use tokenlyfy_v.Support.Action.{Action, return, gets, modify, ◌>>=◌, while_do, for_each}
use tokenlyfy_v.Memory.Working.{
  WorkingMemory, now, time_decay, priority, calculate_priority, entry_less, sift, heappush,
  push_item, rebuild_heap, mark_deleted_in_heap,
}
use tokenlyfy_v.Memory.Working.Operations.{
  get_all, earlier, expire_at, expire_old_memories, pop_first, remove, lowest_from,
  remove_lowest_priority_memory, enforce_capacity_limits, add, merge, changed, first_of,
  replace_object, update, clear, has_memory,
}
use tokenlyfy_v.Memory.Working.Forget.{keyed, chosen, remove_each, forget}

program : Unit {0}
unfolding Dict.get keep get_all add_or_raise return gets modify ◌>>=◌ while_do for_each
    insert_sorted sorted is_space count_words words_from now time_decay priority calculate_priority
    entry_less sift heappush push_item rebuild_heap mark_deleted_in_heap earlier expire_at
    expire_old_memories pop_first remove lowest_from remove_lowest_priority_memory
    enforce_capacity_limits add merge changed first_of replace_object update clear has_memory keyed
    chosen remove_each forget
program = tt

abbrev no_results : Text → ℕ → ℕ → String → Action WorkingMemory (List (MemoryItem ℕ ℕ))
no_results query limit least user = λ s. (ok [], s)

-- A long-term memory that refuses each memory, and raises where one is removed from it.
abbrev stubborn : MemoryClass
stubborn = record {
  Store = List (MemoryItem ℕ ℕ);
  add = λ m t. (raise type_error, t);
  update = λ id c i d t. (ok false, t);
  remove = λ id t. (raise type_error, t);
  has_memory = λ id t. false;
  forget = λ strategy threshold days t. (ok 0, t);
  get_all = λ t. (ok t, t);
  retrieve = λ query limit least user t. (ok [], t);
  clear = λ t. (ok tt, []);
  at_least = λ a b. leb b a;
  boosted = λ a. a;
}

abbrev kind : MemoryClass
kind = mixed_class no_results stubborn

abbrev stores : Stores ⦃kind = kind⦄
stores = ("working", inl started) ∷ ("episodic", inr []) ∷ []

refused : (consolidate_memories ⦃kind = kind⦄ "working" "episodic" 4 stores).0 ≡ raise type_error
unfolding program consolidate_memories move_each on_store Dict.has
refused = refl
