-- ===== src/Context/Structure.antt =====
-- `_structure` of context/builder.py.
pub mod Shows
use tokenlyfy_v.Support.{
  ℕ, ◌+◌, ◌-◌, ◌/◌, String, Option, none, some, List, [], ◌∷◌, ◌++◌, Bool, true, false, not, ◌&&◌,
  ◌||◌, ◌==◌, length, drop, keep, map, eqb, ltb, leb, if◌then◌else◌,
}
use tokenlyfy_v.Support.Text.{Text, same, split}
use tokenlyfy_v.Support.Find.{codes, is_in}
use tokenlyfy_v.Support.Dict
use tokenlyfy_v.Support.Dict.{Dict}
use tokenlyfy_v.Support.Sort.{sorted}
use tokenlyfy_v.Support.Outcome.{Outcome, ok, raise}
use tokenlyfy_v.Support.Action.{Action, modify, ◌>>=◌, ◌>>◌}
use tokenlyfy_v.Context.{
  Platform, Value, text, number, Message, MemorySearch, RagSearch, join, is_empty, ContextPacket,
  ContextConfig, ContextBuilder, count_tokens, get_available_tokens, post_init, has_type, is_system,
}

module _ ⦃platform : Platform⦄ where
  open platform use {
    World, Time, Float, now, lower, encode, nought, ratio, at_least, above, recency, composite,
    share,
  }

  -- A section, where it has packets.
  unfoldable pub section : Text → List ContextPacket → List Text
  section title [] = []
  section title (p ∷ packets) = (title ++ join (codes "\n") (map content (p ∷ packets))) ∷ []
    where
      content : ContextPacket → Text
      content p = p.content

  unfoldable pub evidence_lines : List ContextPacket → Text
  evidence_lines [] = []
  evidence_lines (p ∷ packets) = codes "\n" ++ p.content ++ codes "\n" ++ evidence_lines packets

  unfoldable pub evidence_section : Text → List ContextPacket → List Text
  unfolding evidence_lines
  evidence_section title [] = []
  evidence_section title (p ∷ packets) = (title ++ evidence_lines (p ∷ packets)) ∷ []

  abbrev pub is_evidence : ContextPacket → Bool
  is_evidence p =
      has_type "related_memory" p
      || has_type "knowledge_base" p
      || has_type "retrieval" p
      || has_type "tool_result" p

  abbrev pub output_section : Text
  output_section =
      codes
        "[Output]\n                            请按以下格式回答：\n                            1. 结论（简洁明确）\n                            2. 依据（列出支撑证据及来源）\n                            3. 风险与假设（如有）\n                            4. 下一步行动建议（如适用）"

  abbrev pub role_section : List ContextPacket → List Text
  role_section packets = section (codes "[Role & Policies]\n") (keep is_system packets)

  abbrev pub state_section : List ContextPacket → List Text
  state_section packets =
      section (codes "[State]\n关键进展与未决问题：\n") (keep (has_type "task_state") packets)

  abbrev pub evidence_sections : List ContextPacket → List Text
  evidence_sections packets =
      evidence_section (codes "[Evidence]\n事实与引用：\n") (keep is_evidence packets)

  abbrev pub context_section : List ContextPacket → List Text
  context_section packets =
      section (codes "[Context]\n对话历史与背景：\n") (keep (has_type "history") packets)

  abbrev pub task_section : Text → Text
  task_section user_query = codes "[Task]\n用户问题：" ++ user_query

  unfoldable pub sections : List ContextPacket → Text → List Text
  unfolding section evidence_section
  sections packets user_query =
      role_section packets
      ++ task_section user_query ∷ state_section packets
      ++ evidence_sections packets
      ++ context_section packets
      ++ output_section ∷ []

  unfoldable pub structure : List ContextPacket → Text → Text
  structure packets user_query = join (codes "\n\n") (sections packets user_query)
