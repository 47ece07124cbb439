-- ===== src/Memory/Samples.antt =====
-- Data for the tests: a working memory of two items at most, on a clock that moves by a microsecond
-- at each reading and with tenths for floating-point numbers.
use tokenlyfy_v.Support.{ℕ, ◌+◌, ◌-◌, ◌*◌, ◌/◌, String, [], ◌∷◌, ◌==◌, ltb, eqb}
use tokenlyfy_v.Support.Text.{Text}
use tokenlyfy_v.Memory.Base.{MemoryItem, Environment}
use tokenlyfy_v.Memory.Working.{WorkingMemory}

instance abbrev pub tenths : Environment
tenths = record {
  Float = ℕ;
  Value = ℕ;
  clock = λ n. 3_600_000_000 + n;
  less = ltb;
  equal = eqb;
  times = λ a b. a * b / 10;
  negate = λ a. 1000 - a;
  tenth = 1;
  infinity = 1000;
  decay = λ now t. 10;
  same_item = λ a b. a.id == b.id;
}

abbrev pub memory : String → ℕ → ℕ → Text → MemoryItem ℕ ℕ
memory id timestamp importance content = record {
  object = timestamp;
  id = id;
  content = content;
  memory_type = "working";
  user_id = "u";
  timestamp = timestamp;
  importance = importance;
  metadata = [];
}

abbrev pub empty : WorkingMemory
empty = record {
  max_capacity = 2;
  max_tokens = 3;
  max_age_minutes = 60;
  current_tokens = record { gained = 0; lost = 0 };
  memories = [];
  memory_heap = [];
  ticks = 0;
}

abbrev pub one : MemoryItem ℕ ℕ
one = memory "one" 100 5 (97 ∷ 32 ∷ 98 ∷ [])

abbrev pub two : MemoryItem ℕ ℕ
two = memory "two" 101 7 (99 ∷ [])

abbrev pub three : MemoryItem ℕ ℕ
three = memory "three" 102 6 (100 ∷ [])

-- A memory that holds the first item.
abbrev pub started : WorkingMemory
started = record {
  max_capacity = 2;
  max_tokens = 3;
  max_age_minutes = 60;
  current_tokens = record { gained = 2; lost = 0 };
  memories = one ∷ [];
  memory_heap = record { key = 995; stamp = 100; item = one } ∷ [];
  ticks = 1;
}
