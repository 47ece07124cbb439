-- ===== src/Agents/PlanSolve.antt =====
-- agents/plan_solve_agent.py: the planner, the executor with its rounds of tool calls, and the agent.
-- What they print is left out.
pub mod Agent
pub mod Parsing
pub mod Rounds
pub mod Record
mod Tests
use tokenlyfy_v.Support.{
  ℕ, zero, suc, ◌+◌, ◌-◌, Option, none, some, List, [], ◌∷◌, ◌++◌, Bool, true, false, not, ◌&&◌,
  length, take, drop, map, eqb, if◌then◌else◌,
}
use tokenlyfy_v.Support.Text.{Text, same, strip}
use tokenlyfy_v.Support.Find.{codes, find, starts_with}
use tokenlyfy_v.Support.Outcome.{Exception, index_error, Outcome, ok, raise}
use tokenlyfy_v.Support.Action.{Action, return, modify, ◌>>=◌, ◌>>◌}

-- An entry of `messages`
pub record ChatMessage : Type 0 where
  pub role : Text
  pub content : Text

-- What the agent takes from outside: the language model, which may answer `None`, the clock, the
-- tools by name, `str.format` on the two templates, `str` of numbers and exceptions, and
-- `ast.literal_eval`, which has no list where the literal is another value.
pub record Host : Type 1 where
  pub World : Type 0
  pub Time : Type 0
  -- an item of the list that the plan is
  pub Step : Type 0
  pub invoke : List ChatMessage → Action World (Option Text)
  pub now : World → Time × World
  pub execute_tool : Text → Text → Action World Text
  pub tools_description : Text
  pub planner_format : Text → Outcome Text
  pub executor_format :
      (question : Text) → (plan : List Step) → (history : Text) → Step → Outcome Text
  pub literal_eval : Text → Outcome (Option (List Step))
  pub str_number : ℕ → Text
  pub str_step : Step → Text
  pub str_exception : Exception → Text

pub record ToolCall : Type 0 where
  pub tool_name : Text
  pub parameters : Text
  pub original : Text

abbrev pub marker : Text
marker = codes "[TOOL_CALL:"

-- What stands before the first such character, and behind it.
unfoldable pub until : ℕ → Text → Option (Text × Text)
until d [] = none
until d (c ∷ text) = elim (until d text) [
  | none ↦ if eqb c d then some ([], text) else none
  | some (front, rest) ↦ if eqb c d then some ([], text) else some (c ∷ front, rest)
]

abbrev pub is_empty : {A : Type 0} → List A → Bool
is_empty [] = true
is_empty (x ∷ xs) = false

-- The pattern `\[TOOL_CALL:([^:]+):([^\]]+)\]` at the beginning of a text
unfoldable pub match_call : Text → Option ToolCall
unfolding until
match_call text =
    if starts_with marker text
    then elim (until b':' (drop (length marker) text)) [
      | none ↦ none
      | some (name, behind) ↦ elim (until b']' behind) [
        | none ↦ none
        | some (parameters, rest) ↦
            if not (is_empty name) && not (is_empty parameters)
            then some (record {
              tool_name = strip name;
              parameters = strip parameters;
              original = take (length text - length rest) text;
            })
            else none
      ]
    ]
    else none

-- `finditer`: the number is that of the characters that still belong to the last match.
unfoldable pub calls_from : ℕ → Text → List ToolCall
calls_from n [] = []
calls_from (suc n) (c ∷ text) = calls_from n text
calls_from zero (c ∷ text) = elim (match_call (c ∷ text)) [
  | none ↦ calls_from zero text
  | some call ↦ call ∷ calls_from (length call.original - 1) text
]

unfoldable pub parse_tool_calls : Text → List ToolCall
unfolding calls_from
parse_tool_calls text = calls_from 0 text

-- `"\n\n".join(results)`
unfoldable pub join_results : List Text → Text
join_results [] = []
join_results (r ∷ []) = r
join_results (r ∷ s ∷ results) = r ++ codes "\n\n" ++ join_results (s ∷ results)

-- `text.split(separator)[0]`
unfoldable pub first_part : Text → Text → Text
first_part separator text = elim (find separator text) [ none ↦ text | some i ↦ take i text ]

-- `text.split(separator)[1]`
unfoldable pub second_part : Text → Text → Outcome Text
unfolding first_part
second_part separator text = elim (find separator text) [
  | none ↦ raise index_error
  | some i ↦ ok (first_part separator (drop (i + length separator) text))
]
