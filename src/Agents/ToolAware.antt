-- ===== src/Agents/ToolAware.antt =====
-- The scanner of agents/tool_aware_agent.py: `_find_tool_call_end`, `_parse_tool_calls`, and the
-- part of `stream_run` that cuts tool calls out of the stream of a language model.
pub mod Extracts
pub mod Stream
pub mod Chunks
pub mod Calls
mod Tests
use tokenlyfy_v.Support.{
  ℕ, zero, suc, ◌+◌, ◌-◌, Option, none, some, List, [], ◌∷◌, ◌++◌, Bool, true, false, not, ◌&&◌,
  ◌||◌, if◌then◌else◌, length, take, drop, eqb, ltb,
}
use tokenlyfy_v.Support.Text.{Text, slice, strip}
use tokenlyfy_v.Support.Find.{codes, find, find_from}

abbrev pub marker : Text
marker = codes "[TOOL_CALL:"

-- `char in {'"', "'"}`
abbrev pub is_quote : ℕ → Bool
is_quote c = eqb c b'"' || eqb c b'\''

-- The quote that is open behind a character: `in_string` and `string_quote` in one, with the
-- character before it.
unfoldable pub next_quote : ℕ → Option ℕ → ℕ → Option ℕ
next_quote before none c = if is_quote c then some c else none
next_quote before (some q) c =
    if is_quote c && (eqb q c && not (eqb before b'\\')) then none else some q

-- `depth` behind a character, with the quote that is open behind it
unfoldable pub next_depth : ℕ → Option ℕ → ℕ → ℕ
next_depth depth (some q) c = depth
next_depth depth none c = if eqb c b'[' then depth + 1 else if eqb c b']' then depth - 1 else depth

-- The character is the bracket that closes the call.
unfoldable pub closes : ℕ → Option ℕ → ℕ → Bool
closes depth (some q) c = false
closes depth none c = eqb c b']' && eqb depth 0

abbrev pub one_on : Option ℕ → Option ℕ
one_on none = none
one_on (some i) = some (suc i)

-- The loop over the body of a call: the offset of the bracket that closes it.
unfoldable pub scan : ℕ → ℕ → Option ℕ → Text → Option ℕ
scan before depth quote [] = none
scan before depth quote (c ∷ text) =
    let q = next_quote before quote c in
    let rest = scan c (next_depth depth q c) q text in
    if closes depth q c then some 0 else one_on rest

-- `_find_tool_call_end(text, start_index)`, where `none` is -1
unfoldable pub find_tool_call_end : Text → ℕ → Option ℕ
find_tool_call_end text start_index =
    elim (find_from (codes ":") text (start_index + length marker)) [
      | none ↦ none
      | some colon ↦ elim (scan b':' 0 none (drop (colon + 1) text)) [
        | none ↦ none
        | some i ↦ some (colon + 1 + i)
      ]
    ]

pub record ToolCall : Type 0 where
  pub tool_name : Text
  pub parameters : Text
  pub original : Text

-- The loop of `_parse_tool_calls`; `none` means that the fuel ran out.
unfoldable pub parse_from : ℕ → Text → ℕ → Option (List ToolCall)
parse_from zero text start = none
parse_from (suc fuel) text start = elim (find_from marker text start) [
  | none ↦ some []
  | some begin ↦
      let tool_start = begin + length marker in
      elim (find_from (codes ":") text tool_start) [
        | none ↦ some []
        | some colon ↦ elim (scan b':' 0 none (drop (colon + 1) text)) [
          | none ↦ some []
          | some i ↦
              let pos = colon + 1 + i in
              elim (parse_from fuel text (pos + 1)) [
                | none ↦ none
                | some calls ↦ some (
                    record {
                      tool_name = strip (slice text tool_start (colon - tool_start));
                      parameters = strip (slice text (colon + 1) i);
                      original = slice text begin (pos + 1 - begin);
                    }
                    ∷ calls)
              ]
        ]
      ]
]

-- `_parse_tool_calls`: each call moves the start on.
unfoldable pub parse_tool_calls : Text → Option (List ToolCall)
parse_tool_calls text = parse_from (length text + 1) text 0

-- What the stream has made of the text so far: the segments that are shown, the texts of the calls,
-- and the rest that is kept back.
pub record Progress : Type 0 where
  pub segments : List Text
  pub tool_call_texts : List Text
  pub residual : Text

-- `process_residual`; `none` means that the fuel ran out.
unfoldable pub process_residual : ℕ → Bool → Text → Option Progress
process_residual zero final_pass residual = none
process_residual (suc fuel) final_pass residual = elim (find marker residual) [
  | none ↦
      let safe_len =
        if final_pass then length residual else length residual - (length marker - 1) in
      some (record {
        segments = if ltb 0 safe_len then take safe_len residual ∷ [] else [];
        tool_call_texts = [];
        residual = drop safe_len residual;
      })
  | some start ↦ elim (ltb 0 start) [
    | true ↦ elim (process_residual fuel final_pass (drop start residual)) [
      | none ↦ none
      | some p ↦ some (record p { segments = take start residual ∷ p.segments })
    ]
    | false ↦ elim (find_tool_call_end residual 0) [
      | none ↦ some (record { segments = []; tool_call_texts = []; residual = residual })
      | some end ↦ elim (process_residual fuel final_pass (drop (end + 1) residual)) [
        | none ↦ none
        | some p ↦ some (record p { tool_call_texts = take (end + 1) residual ∷ p.tool_call_texts })
      ]
    ]
  ]
]

-- The loop over the chunks of one round, and the final pass. Each step of `process_residual` makes
-- the rest shorter, so its length and one is enough fuel.
unfoldable pub read_stream : Text → List Text → Option Progress
read_stream residual [] = process_residual (length residual + 1) true residual
read_stream residual (chunk ∷ chunks) =
    let text = residual ++ chunk in
    elim (eqb (length chunk) 0) [
      | true ↦ read_stream residual chunks
      | false ↦ elim (process_residual (length text + 1) false text) [
        | none ↦ none
        | some p ↦ elim (read_stream p.residual chunks) [
          | none ↦ none
          | some later ↦ some (record later {
            segments = p.segments ++ later.segments;
            tool_call_texts = p.tool_call_texts ++ later.tool_call_texts;
          })
        ]
      ]
    ]
