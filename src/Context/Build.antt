-- ===== src/Context/Build.antt =====
-- `build` of context/builder.py.
pub mod Keeps
use tokenlyfy_v.Support.{
  ℕ, ◌+◌, ◌-◌, ◌/◌, String, Option, none, some, List, [], ◌∷◌, ◌++◌, Bool, true, false, not, ◌&&◌,
  ◌||◌, ◌==◌, length, drop, keep, map, eqb, ltb, leb, if◌then◌else◌,
}
use tokenlyfy_v.Support.Text.{Text, same, split}
use tokenlyfy_v.Support.Find.{codes, is_in}
use tokenlyfy_v.Support.Dict
use tokenlyfy_v.Support.Dict.{Dict}
use tokenlyfy_v.Support.Sort.{sorted}
use tokenlyfy_v.Support.Outcome.{Outcome, ok, raise}
use tokenlyfy_v.Support.Action.{Action, modify, ◌>>=◌, ◌>>◌}
use tokenlyfy_v.Context.{
  Platform, Value, text, number, Message, MemorySearch, RagSearch, join, is_empty, ContextPacket,
  ContextConfig, ContextBuilder, count_tokens, get_available_tokens, post_init, has_type, is_system,
}
use tokenlyfy_v.Context.Gather.{gather}
use tokenlyfy_v.Context.Select.{select}
use tokenlyfy_v.Context.Structure.{structure}
use tokenlyfy_v.Context.Compress.{compress}

module _ ⦃platform : Platform⦄ where
  open platform use {
    World, Time, Float, now, lower, encode, nought, ratio, at_least, above, recency, composite,
    share,
  }

  unfoldable pub build :
      ContextBuilder → Text → List Message → Text → List ContextPacket → World → Text × World
  unfolding gather select structure compress
  build builder user_query history system_instructions additional_packets w =
      let (_, g) =
        gather builder user_query history system_instructions additional_packets
          (record { packets = []; world = w }) in
      let (selected, w) = select builder.config user_query g.packets g.world in
      (compress builder.config (structure selected user_query), w)
