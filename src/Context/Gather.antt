-- ===== src/Context/Gather.antt =====
-- `_gather` of context/builder.py.
pub mod Grows
use tokenlyfy_v.Support.{
  ℕ, ◌+◌, ◌-◌, ◌/◌, String, Option, none, some, List, [], ◌∷◌, ◌++◌, Bool, true, false, not, ◌&&◌,
  ◌||◌, ◌==◌, length, drop, keep, map, eqb, ltb, leb, if◌then◌else◌,
}
use tokenlyfy_v.Support.Text.{Text, same, split}
use tokenlyfy_v.Support.Find.{codes, is_in}
use tokenlyfy_v.Support.Dict
use tokenlyfy_v.Support.Dict.{Dict}
use tokenlyfy_v.Support.Sort.{sorted}
use tokenlyfy_v.Support.Outcome.{Outcome, ok, raise}
use tokenlyfy_v.Support.Action.{Action, modify, ◌>>=◌, ◌>>◌}
use tokenlyfy_v.Context.{
  Platform, Value, text, number, Message, MemorySearch, RagSearch, join, is_empty, ContextPacket,
  ContextConfig, ContextBuilder, count_tokens, get_available_tokens, post_init, has_type, is_system,
}

-- The results of a search are used.
abbrev pub is_found : Text → Bool
is_found results = not (is_empty results) && not (is_in (codes "未找到") results)

abbrev pub state_search : MemorySearch
state_search = record {
  query = codes "(任务状态 OR 子目标 OR 结论 OR 阻塞)";
  min_importance = some 7;
  limit = 5;
}

abbrev pub related_search : Text → MemorySearch
related_search user_query = record { query = user_query; min_importance = none; limit = 5 }

-- `history[-10:]`
unfoldable pub recent : List Message → List Message
recent history = drop (length history - 10) history

abbrev pub history_line : Message → Text
history_line msg = codes "[" ++ msg.role ++ codes "] " ++ msg.content

module _ ⦃platform : Platform⦄ where
  open platform use {
    World, Time, Float, now, lower, encode, nought, ratio, at_least, above, recency, composite,
    share,
  }

  pub record Gathering : Type 0 where
    pub packets : List ContextPacket
    pub world : World

  -- `packets.append(ContextPacket(content=..., metadata=...))`
  unfoldable pub append_packet : Text → Dict Value → Action Gathering (Unit {0})
  unfolding post_init
  append_packet content metadata = modify (λ g.
      let (timestamp, w) = now g.world in
      record {
        packets =
            g.packets
            ++ post_init (record {
              content = content;
              timestamp = timestamp;
              metadata = metadata;
              token_count = 0;
              relevance_score = nought;
            })
              ∷ [];
        world = w;
      })

  unfoldable pub append_if : Bool → Text → Dict Value → Action Gathering (Unit {0})
  unfolding append_packet
  append_if test content metadata = if test then append_packet content metadata else modify (λ g. g)

  -- A call of a tool, which sees the world only.
  unfoldable pub asking : Action World Text → Action Gathering Text
  asking m g = let (r, w) = m g.world in (r, record g { world = w })

  -- `except Exception`: what was gathered stays.
  unfoldable pub guarded : Action Gathering (Unit {0}) → Action Gathering (Unit {0})
  guarded m g = let (_, g') = m g in (ok tt, g')

  unfoldable pub gather_memory :
      (MemorySearch → Action World Text) → Text → Action Gathering (Unit {0})
  unfolding asking append_if
  gather_memory execute user_query = do
    state_results ← asking (execute state_search)
    append_if (is_found state_results) state_results
        (("type", text "task_state") ∷ ("importance", text "high") ∷ [])
    related_results ← asking (execute (related_search user_query))
    append_if (is_found related_results) related_results (("type", text "related_memory") ∷ [])

  unfoldable pub gather_rag : (RagSearch → Action World Text) → Text → Action Gathering (Unit {0})
  unfolding asking append_if
  gather_rag run user_query = do
    rag_results ← asking (run (record { query = user_query; limit = 5 }))
    append_if (is_found rag_results && not (is_in (codes "错误") rag_results)) rag_results
        (("type", text "knowledge_base") ∷ [])

  unfoldable pub gather_history : List Message → Action Gathering (Unit {0})
  unfolding append_if
  gather_history history =
      append_if (ltb 0 (length history)) (join (codes "\n") (map history_line (recent history)))
        (("type", text "history") ∷ ("count", number (length (recent history))) ∷ [])

  unfoldable pub if_given :
      {A : Type 0} → Option A → (A → Action Gathering (Unit {0})) → Action Gathering (Unit {0})
  if_given none use_tool = modify (λ g. g)
  if_given (some tool) use_tool = use_tool tool

  unfoldable pub gather :
      ContextBuilder → Text → List Message → Text → List ContextPacket → Action Gathering (Unit {0})
  unfolding append_if guarded gather_memory gather_rag gather_history if_given
  gather builder user_query history system_instructions additional_packets = do
    append_if (not (is_empty system_instructions)) system_instructions
        (("type", text "instructions") ∷ [])
    if_given builder.memory_execute (λ execute. guarded (gather_memory execute user_query))
    if_given builder.rag_run (λ run. guarded (gather_rag run user_query))
    gather_history history
    modify (λ g. record g { packets = g.packets ++ additional_packets })
