-- ===== src/Memory/Base.antt =====
-- `MemoryItem` of memory/base.py, and what the memories take from outside the program: the clock,
-- floating-point numbers, and the equality of two items that pydantic defines.
use tokenlyfy_v.Support.{ℕ, String, Bool}
use tokenlyfy_v.Support.Text.{Text}
use tokenlyfy_v.Support.Dict.{Dict}

pub record MemoryItem (Float V : Type 0) : Type 0 where
  -- which object of the heap this is: two entries of one list may be the same object
  pub object : ℕ
  pub id : String
  pub content : Text
  pub memory_type : String
  pub user_id : String
  pub timestamp : ℕ
  pub importance : Float
  pub metadata : Dict V

pub record Environment : Type 1 where
  pub Float : Type 0
  -- the type of metadata values
  pub Value : Type 0
  -- the n-th reading of `datetime.now()`, in microseconds since `datetime.min`, as all times
  pub clock : ℕ → ℕ
  -- `<`, `==`, `*`, unary `-`, 0.1 and `float('inf')`
  pub less : Float → Float → Bool
  pub equal : Float → Float → Bool
  pub times : Float → Float → Float
  pub negate : Float → Float
  pub tenth : Float
  pub infinity : Float
  -- `decay_factor ** (hours_passed / 6)` of the time from a timestamp to a reading of the clock
  pub decay : (now timestamp : ℕ) → Float
  pub same_item : MemoryItem Float Value → MemoryItem Float Value → Bool
