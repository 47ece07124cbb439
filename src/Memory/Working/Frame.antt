-- ===== src/Memory/Working/Frame.antt =====
-- What the heap and the clock of types/working.py leave alone.

use tokenlyfy_v.Support.{[], ◌≡◌, refl}
use tokenlyfy_v.Support.Action.{modify, Keeps, keeps_rules, Keeps-for_each}
use tokenlyfy_v.Memory.Base.{Environment}
use tokenlyfy_v.Memory.Working.{
  Item, Entry, WorkingMemory, now, calculate_priority, heappush, push_item, rebuild_heap,
}

module _ ⦃env : Environment⦄ where
  -- The same memories, count and limits; the heap and the clock may differ.
  pub record IsLike (base s : WorkingMemory) : Type 0 where
    pub memories : s.memories ≡ base.memories
    pub current_tokens : s.current_tokens ≡ base.current_tokens
    pub max_capacity : s.max_capacity ≡ base.max_capacity
    pub max_tokens : s.max_tokens ≡ base.max_tokens

  pub IsLike-refl : (s : WorkingMemory) → IsLike s s
  IsLike-refl s = record {
    memories = refl;
    current_tokens = refl;
    max_capacity = refl;
    max_tokens = refl;
  }

  module _ (base : WorkingMemory) where
    pub now-IsLike : Keeps (IsLike base) now
    unfolding now
    now-IsLike = record {
      keeps = λ s h. record {
        memories = h.memories;
        current_tokens = h.current_tokens;
        max_capacity = h.max_capacity;
        max_tokens = h.max_tokens;
      };
    }

    pub heappush-IsLike : (e : Entry) → Keeps (IsLike base) (heappush e)
    unfolding heappush
    heappush-IsLike e = record {
      keeps = λ s h. record {
        memories = h.memories;
        current_tokens = h.current_tokens;
        max_capacity = h.max_capacity;
        max_tokens = h.max_tokens;
      };
    }

    pub calculate_priority-IsLike : (m : Item) → Keeps (IsLike base) (calculate_priority m)
    unfolding calculate_priority
    calculate_priority-IsLike m = search (keeps_rules, now-IsLike)

    pub push_item-IsLike : (m : Item) → Keeps (IsLike base) (push_item m)
    unfolding push_item
    push_item-IsLike m = search (keeps_rules, calculate_priority-IsLike, heappush-IsLike)

    pub clear_heap-IsLike :
        Keeps (IsLike base) (modify (λ (s : WorkingMemory). record s { memory_heap = [] }))
    unfolding modify
    clear_heap-IsLike = record {
      keeps = λ s h. record {
        memories = h.memories;
        current_tokens = h.current_tokens;
        max_capacity = h.max_capacity;
        max_tokens = h.max_tokens;
      };
    }

    pub rebuild_heap-IsLike : Keeps (IsLike base) rebuild_heap
    unfolding rebuild_heap
    rebuild_heap-IsLike = search (keeps_rules, clear_heap-IsLike, Keeps-for_each, push_item-IsLike)
