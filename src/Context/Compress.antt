-- ===== src/Context/Compress.antt =====
-- `_compress` of context/builder.py.
pub mod Prefix
use tokenlyfy_v.Support.{
  ℕ, ◌+◌, ◌-◌, ◌/◌, String, Option, none, some, List, [], ◌∷◌, ◌++◌, Bool, true, false, not, ◌&&◌,
  ◌||◌, ◌==◌, length, drop, keep, map, eqb, ltb, leb, if◌then◌else◌,
}
use tokenlyfy_v.Support.Text.{Text, same, split}
use tokenlyfy_v.Support.Find.{codes, is_in}
use tokenlyfy_v.Support.Dict
use tokenlyfy_v.Support.Dict.{Dict}
use tokenlyfy_v.Support.Sort.{sorted}
use tokenlyfy_v.Support.Outcome.{Outcome, ok, raise}
use tokenlyfy_v.Support.Action.{Action, modify, ◌>>=◌, ◌>>◌}
use tokenlyfy_v.Context.{
  Platform, Value, text, number, Message, MemorySearch, RagSearch, join, is_empty, ContextPacket,
  ContextConfig, ContextBuilder, count_tokens, get_available_tokens, post_init, has_type, is_system,
}

-- A character in front of the first line.
abbrev pub onto : ℕ → List Text → List Text
onto c [] = (c ∷ []) ∷ []
onto c (line ∷ lines) = (c ∷ line) ∷ lines

-- `text.split("\n")`
unfoldable pub split_lines : Text → List Text
split_lines [] = [] ∷ []
split_lines (c ∷ t) = let rest = split_lines t in if eqb c b'\n' then [] ∷ rest else onto c rest

module _ ⦃platform : Platform⦄ where
  open platform use {
    World, Time, Float, now, lower, encode, nought, ratio, at_least, above, recency, composite,
    share,
  }

  -- The lines up to the first that does not fit.
  unfoldable pub fitting : ℕ → ℕ → List Text → List Text
  fitting available used [] = []
  fitting available used (line ∷ lines) =
      let rest = fitting available (used + count_tokens line) lines in
      if ltb available (used + count_tokens line) then [] else line ∷ rest

  unfoldable pub compress : ContextConfig → Text → Text
  unfolding split_lines fitting
  compress config context =
      if not config.enable_compression
      then context
      else let available = get_available_tokens config in
        if leb (count_tokens context) available
        then context
        else join (codes "\n") (fitting available 0 (split_lines context))
