-- ===== src/Context/Select.antt =====
-- `_select` of context/builder.py.
pub mod Greedy
pub mod Budget
use tokenlyfy_v.Support.{
  ℕ, ◌+◌, ◌-◌, ◌/◌, String, Option, none, some, List, [], ◌∷◌, ◌++◌, Bool, true, false, not, ◌&&◌,
  ◌||◌, ◌==◌, length, drop, keep, map, eqb, ltb, leb, if◌then◌else◌,
}
use tokenlyfy_v.Support.Text.{Text, same, split}
use tokenlyfy_v.Support.Find.{codes, is_in}
use tokenlyfy_v.Support.Dict
use tokenlyfy_v.Support.Dict.{Dict}
use tokenlyfy_v.Support.Sort.{sorted}
use tokenlyfy_v.Support.Outcome.{Outcome, ok, raise}
use tokenlyfy_v.Support.Action.{Action, modify, ◌>>=◌, ◌>>◌}
use tokenlyfy_v.Context.{
  Platform, Value, text, number, Message, MemorySearch, RagSearch, join, is_empty, ContextPacket,
  ContextConfig, ContextBuilder, count_tokens, get_available_tokens, post_init, has_type, is_system,
}

unfoldable pub member : Text → List Text → Bool
member t [] = false
member t (s ∷ texts) = same t s || member t texts

-- `set(texts)`
unfoldable pub distinct : List Text → List Text
distinct [] = []
distinct (t ∷ texts) = let rest = distinct texts in if member t texts then rest else t ∷ rest

module _ ⦃platform : Platform⦄ where
  open platform use {
    World, Time, Float, now, lower, encode, nought, ratio, at_least, above, recency, composite,
    share,
  }

  -- The words of the query that the content has, among all words of the query.
  unfoldable pub relevance : List Text → ContextPacket → Float
  unfolding member
  relevance query_tokens p =
      if ltb 0 (length query_tokens)
      then ratio (length (keep (λ t. member t (split (lower p.content))) query_tokens))
          (length query_tokens)
      else nought

  abbrev pub with_relevance : List Text → ContextPacket → ContextPacket
  with_relevance query_tokens p = record p { relevance_score = relevance query_tokens p }

  -- The loop over the packets reads the clock for each.
  unfoldable pub scored : List ContextPacket → World → List (Float × ContextPacket) × World
  scored [] w = ([], w)
  scored (p ∷ packets) w =
      let (time, w) = now w in
      let (rest, w) = scored packets w in
      ((composite p.relevance_score (recency time p.timestamp), p) ∷ rest, w)

  -- The packets that still fit, in order; the total they come to is beside them.
  unfoldable pub fill : ℕ → ℕ → List ContextPacket → List ContextPacket × ℕ
  fill available used [] = ([], used)
  fill available used (p ∷ packets) = elim (leb (used + p.token_count) available) [
    | true ↦
        let (selected, total) = fill available (used + p.token_count) packets in
        (p ∷ selected, total)
    | false ↦ fill available used packets
  ]

  abbrev pub packet_of : Float × ContextPacket → ContextPacket
  packet_of (s, p) = p

  unfoldable pub select :
      ContextConfig → Text → List ContextPacket → World → List ContextPacket × World
  unfolding distinct relevance scored
  select config user_query packets w =
      let query_tokens = distinct (split (lower user_query)) in
      let (scores, w) = scored (map (with_relevance query_tokens) packets) w in
      let available = get_available_tokens config in
      let system_packets = keep is_system (map packet_of scores) in
      let remaining =
        keep (λ p. not (is_system p)) (map packet_of (sorted (λ a b. above a.0 b.0) scores)) in
      let filtered = keep (λ p. at_least p.relevance_score config.min_relevance) remaining in
      let (selected, used) = fill available 0 system_packets in
      let (others, _) = fill available used filtered in (selected ++ others, w)
