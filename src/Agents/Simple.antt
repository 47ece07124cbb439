-- ===== src/Agents/Simple.antt =====
-- `SimpleAgent` of agents/simple_agent.py: how it reads the parameters of a tool call, and its loop over
-- the answers of the model. The system prompt is a field; what is printed is left out. The pattern of
-- tool calls is that of agents/plan_solve_agent.py.
pub mod Pairs
pub mod Loop
mod Tests
use tokenlyfy_v.Support.{
  ℕ, zero, suc, ◌+◌, ◌-◌, Option, none, some, List, [], ◌∷◌, ◌++◌, Bool, true, false, not, ◌&&◌,
  ◌||◌, length, map, eqb, if◌then◌else◌,
}
use tokenlyfy_v.Support.Text.{Text, same, strip}
use tokenlyfy_v.Support.Find.{codes, starts_with, is_in}
use tokenlyfy_v.Support.Outcome.{Exception, Outcome, ok, raise}
use tokenlyfy_v.Support.Action.{Action, return, ◌>>=◌}
use tokenlyfy_v.Agents.PlanSolve.{ChatMessage, ToolCall, until, parse_tool_calls, join_results}

-- A dictionary with texts as keys, in the order of insertion
module _ {V : Type 0} where
  unfoldable pub get : Text → List (Text × V) → Option V
  get k [] = none
  get k ((k', v) ∷ d) = if same k k' then some v else get k d

  unfoldable pub put : Text → V → List (Text × V) → List (Text × V)
  put k v [] = (k, v) ∷ []
  put k v ((k', v') ∷ d) =
      let rest = put k v d in if same k k' then (k', v) ∷ d else (k', v') ∷ rest

  unfoldable pub delete : Text → List (Text × V) → List (Text × V)
  delete k [] = []
  delete k ((k', v) ∷ d) = let rest = delete k d in if same k k' then rest else (k', v) ∷ rest

  unfoldable pub has : Text → List (Text × V) → Bool
  unfolding get
  has k d = elim (get k d) [ none ↦ false | some v ↦ true ]

  -- `d[new] = d.pop(old)`
  unfoldable pub rename : Text → Text → List (Text × V) → List (Text × V)
  unfolding get put delete
  rename old new d = elim (get old d) [ none ↦ d | some v ↦ put new v (delete old d) ]

-- `text.split(separator)` for one character
unfoldable pub split_on : ℕ → Text → List Text
split_on d [] = [] ∷ []
split_on d (c ∷ text) = elim (split_on d text) [
  | [] ↦ (c ∷ []) ∷ []
  | piece ∷ pieces ↦ if eqb c d then [] ∷ piece ∷ pieces else (c ∷ piece) ∷ pieces
]

-- `text.replace(original, "")`: the number is that of the characters that still belong to the last match.
unfoldable pub removed : Text → ℕ → Text → Text
removed original n [] = []
removed original (suc n) (c ∷ text) = removed original n text
removed original zero (c ∷ text) = elim (starts_with original (c ∷ text)) [
  | true ↦ removed original (length original - 1) text
  | false ↦ c ∷ removed original zero text
]

unfoldable pub clean : List ToolCall → Text → Text
unfolding removed
clean [] text = text
clean (call ∷ calls) text = clean calls (removed call.original 0 text)

-- What the agent takes from outside: the model and the tools over a world, `json.loads`, which has no
-- result where the text is no JSON, and the conversion of a value, which has none where it raises.
pub record Kit : Type 1 where
  pub World : Type 0
  pub Tool : Type 0
  pub Value : Type 0
  pub text : Text → Value
  pub invoke : List ChatMessage → Action World Text
  pub get_tool : Text → Option Tool
  pub parameter_types : Tool → Option (List (Text × Text))
  pub run_tool : Tool → List (Text × Value) → Action World Text
  pub loads : Text → Option (List (Text × Value))
  pub convert : Text → Value → Option Value
  pub str_exception : Exception → Text

module _ ⦃kit : Kit⦄ where
  open kit use {
    World, Tool, Value, text, invoke, get_tool, parameter_types, run_tool, loads, convert,
    str_exception,
  }

  pub record SimpleAgent : Type 0 where
    pub enable_tool_calling : Bool
    pub system_prompt : Text
    pub history : List ChatMessage

  abbrev pub is_converted : Text → Bool
  is_converted type =
      same type (codes "number") || same type (codes "integer") || same type (codes "boolean")

  -- A value whose conversion fails stays as it is.
  unfoldable pub converted : List (Text × Text) → Text × Value → Text × Value
  converted types (key, value) = elim (get key types) [
    | none ↦ (key, value)
    | some type ↦
        if is_converted type
        then elim (convert type value) [ none ↦ (key, value) | some v ↦ (key, v) ]
        else (key, value)
  ]

  unfoldable pub convert_parameter_types : Text → List (Text × Value) → List (Text × Value)
  unfolding converted
  convert_parameter_types tool_name d = elim (get_tool tool_name) [
    | none ↦ d
    | some tool ↦ elim (parameter_types tool) [ none ↦ d | some types ↦ map (converted types) d ]
  ]

  abbrev pub with_action : Text → List (Text × Value) → List (Text × Value)
  with_action action d = put (codes "action") (text action) d

  unfoldable pub infer_action : Text → List (Text × Value) → List (Text × Value)
  unfolding rename has
  infer_action tool_name d =
      if same tool_name (codes "memory")
      then if has (codes "recall") d
        then rename (codes "recall") (codes "query") (with_action (codes "search") d)
        else if has (codes "store") d
        then rename (codes "store") (codes "content") (with_action (codes "add") d)
        else if has (codes "query") d
        then with_action (codes "search") d
        else if has (codes "content") d
        then with_action (codes "add") d
        else d
      else if same tool_name (codes "rag")
      then if has (codes "search") d
        then rename (codes "search") (codes "query") (with_action (codes "search") d)
        else if has (codes "query") d
        then with_action (codes "search") d
        else if has (codes "text") d
        then with_action (codes "add_text") d
        else d
      else d

  unfoldable pub infer_simple_parameters : Text → Text → List (Text × Value)
  infer_simple_parameters tool_name parameters =
      if same tool_name (codes "rag") || same tool_name (codes "memory")
      then (codes "action", text (codes "search")) ∷ (codes "query", text parameters) ∷ []
      else (codes "input", text parameters) ∷ []

  -- The pieces with an equals sign; the others are left out.
  unfoldable pub put_pairs : List Text → List (Text × Value) → List (Text × Value)
  put_pairs [] d = d
  put_pairs (pair ∷ pairs) d = elim (until b'=' pair) [
    | none ↦ put_pairs pairs d
    | some (key, value) ↦ put_pairs pairs (put (strip key) (text (strip value)) d)
  ]

  unfoldable pub read_pairs : Text → Text → List (Text × Value)
  unfolding put_pairs infer_action convert_parameter_types has
  read_pairs tool_name parameters =
      let d = convert_parameter_types tool_name (put_pairs (split_on b',' parameters) []) in
      if has (codes "action") d then d else infer_action tool_name d

  unfoldable pub parse_tool_parameters : Text → Text → List (Text × Value)
  unfolding read_pairs infer_simple_parameters
  parse_tool_parameters tool_name parameters =
      let plain =
        if is_in (codes "=") parameters
        then read_pairs tool_name parameters
        else infer_simple_parameters tool_name parameters in
      if starts_with (codes "{") (strip parameters)
      then elim (loads parameters) [ some d ↦ convert_parameter_types tool_name d | none ↦ plain ]
      else plain

  -- `_execute_tool_call`
  unfoldable pub execute_tool_call : ToolCall → World → Text × World
  unfolding parse_tool_parameters
  execute_tool_call call w = elim (get_tool call.tool_name) [
    | none ↦ (codes "❌ 错误：未找到工具 '" ++ call.tool_name ++ codes "'", w)
    | some tool ↦
        let (r, w') = run_tool tool (parse_tool_parameters call.tool_name call.parameters) w in
        elim r [
          | ok result ↦ (codes "🔧 工具 " ++ call.tool_name ++ codes " 执行结果：\n" ++ result, w')
          | raise e ↦ (codes "❌ 工具调用失败：" ++ str_exception e, w')
        ]
  ]

  unfoldable pub execute_tool_calls : List ToolCall → World → List Text × World
  unfolding execute_tool_call
  execute_tool_calls [] w = ([], w)
  execute_tool_calls (call ∷ calls) w =
      let (result, w) = execute_tool_call call w in
      let (results, w) = execute_tool_calls calls w in (result ∷ results, w)

  -- The loop of `run` with the iterations that are left, and the call behind it
  unfoldable pub rounds : ℕ → List ChatMessage → Action World Text
  unfolding execute_tool_calls clean
  rounds zero messages = invoke messages
  rounds (suc left) messages = invoke messages >>= λ response w. elim (parse_tool_calls response) [
    | [] ↦ (ok response, w)
    | call ∷ calls ↦
        let (results, w) = execute_tool_calls (call ∷ calls) w in
        rounds left
          (messages
            ++ record { role = codes "assistant"; content = clean (call ∷ calls) response }
              ∷ record {
                role = codes "user";
                content = codes "工具执行结果：\n" ++ join_results results ++ codes "\n\n请基于这些结果给出完整的回答。";
              }
              ∷ [])
          w
  ]

  abbrev pub messages_for : SimpleAgent → Text → List ChatMessage
  messages_for agent input_text =
      (record { role = codes "system"; content = agent.system_prompt } ∷ agent.history)
      ++ record { role = codes "user"; content = input_text } ∷ []

  -- The answer and the agent behind it; the timestamps of the messages are left out.
  unfoldable pub run : Text → ℕ → SimpleAgent → Action World (Text × SimpleAgent)
  unfolding rounds
  run input_text max_tool_iterations agent =
      (if agent.enable_tool_calling
        then rounds max_tool_iterations (messages_for agent input_text)
        else invoke (messages_for agent input_text))
      >>= λ response. return (
        response,
        record agent {
          history =
              agent.history
              ++ record { role = codes "user"; content = input_text }
                ∷ record { role = codes "assistant"; content = response }
                ∷ [];
        },
      )
