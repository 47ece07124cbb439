-- ===== src/Context.antt =====
-- context/builder.py: the packets of a context, their selection within a budget of tokens, the
-- sections of the prompt and its truncation. The message on the truncation is left out.
pub mod Gather
pub mod Select
pub mod Structure
pub mod Compress
pub mod Build
mod Tests
use tokenlyfy_v.Support.{
  ℕ, ◌+◌, ◌-◌, ◌/◌, String, Option, none, some, List, [], ◌∷◌, ◌++◌, Bool, true, false, not, ◌&&◌,
  ◌||◌, ◌==◌, length, drop, keep, map, eqb, ltb, leb, if◌then◌else◌,
}
use tokenlyfy_v.Support.Text.{Text, same, split}
use tokenlyfy_v.Support.Find.{codes, is_in}
use tokenlyfy_v.Support.Dict
use tokenlyfy_v.Support.Dict.{Dict}
use tokenlyfy_v.Support.Sort.{sorted}
use tokenlyfy_v.Support.Outcome.{Outcome, ok, raise}
use tokenlyfy_v.Support.Action.{Action, modify, ◌>>=◌, ◌>>◌}

-- What the builder takes from outside: the clock, `str.lower`, floating-point numbers, and the
-- encoding of tiktoken, which has no result where it raises.
pub record Platform : Type 1 where
  pub World : Type 0
  pub Time : Type 0
  pub Float : Type 0
  pub now : World → Time × World
  pub lower : Text → Text
  pub encode : Text → Option (List ℕ)
  -- 0.0, `a / b`, `>=` and `>`
  pub nought : Float
  pub ratio : ℕ → ℕ → Float
  pub at_least : Float → Float → Bool
  pub above : Float → Float → Bool
  -- `math.exp(-max((now - ts).total_seconds(), 0) / 3600)`
  pub recency : (now ts : Time) → Float
  -- `0.7 * relevance + 0.3 * recency`
  pub composite : (relevance recency : Float) → Float
  -- `int(n * (1 - ratio))` for a ratio of at most one
  pub share : ℕ → Float → ℕ

pub data Value : Type 0 where
  text : String → Value
  number : ℕ → Value

pub record Message : Type 0 where
  pub role : Text
  pub content : Text

pub record MemorySearch : Type 0 where
  pub query : Text
  -- in tenths
  pub min_importance : Option ℕ
  pub limit : ℕ

pub record RagSearch : Type 0 where
  pub query : Text
  pub limit : ℕ

-- `separator.join(texts)`
unfoldable pub join : Text → List Text → Text
join separator [] = []
join separator (t ∷ []) = t
join separator (t ∷ s ∷ texts) = t ++ separator ++ join separator (s ∷ texts)

abbrev pub is_empty : Text → Bool
is_empty [] = true
is_empty (c ∷ t) = false

module _ ⦃platform : Platform⦄ where
  open platform use {
    World, Time, Float, now, lower, encode, nought, ratio, at_least, above, recency, composite,
    share,
  }

  pub record ContextPacket : Type 0 where
    pub content : Text
    pub timestamp : Time
    pub metadata : Dict Value
    pub token_count : ℕ
    pub relevance_score : Float

  pub record ContextConfig : Type 0 where
    pub max_tokens : ℕ
    pub reserve_ratio : Float
    pub min_relevance : Float
    pub enable_compression : Bool

  pub record ContextBuilder : Type 0 where
    pub memory_execute : Option (MemorySearch → Action World Text)
    pub rag_run : Option (RagSearch → Action World Text)
    pub config : ContextConfig

  unfoldable pub count_tokens : Text → ℕ
  count_tokens t = elim (encode t) [ none ↦ length t / 4 | some tokens ↦ length tokens ]

  unfoldable pub get_available_tokens : ContextConfig → ℕ
  get_available_tokens config = share config.max_tokens config.reserve_ratio

  -- `__post_init__`
  unfoldable pub post_init : ContextPacket → ContextPacket
  post_init p = if eqb p.token_count 0 then record p { token_count = count_tokens p.content } else p

  -- `packet.metadata.get("type") == type`
  unfoldable pub has_type : String → ContextPacket → Bool
  has_type type p = elim (Dict.get "type" p.metadata) [
    | none ↦ false
    | some (text t) ↦ t == type
    | some (number n) ↦ false
  ]

  abbrev pub is_system : ContextPacket → Bool
  is_system p = has_type "instructions" p
