-- ===== src/Tools/Chain/Tests.antt =====
-- The chain of create_simple_chain, and one that asks for a missing variable.
use tokenlyfy_v.Support.{
  ℕ, ◌+◌, String, none, some, List, [], ◌∷◌, false, ◌==◌, ◌≡◌, refl, if◌then◌else◌, map,
}
use tokenlyfy_v.Support.Dict
use tokenlyfy_v.Support.Dict.{Dict}
use tokenlyfy_v.Support.Names.{contains}
use tokenlyfy_v.Support.Message.{concat}
use tokenlyfy_v.Support.Outcome.{Outcome, ok, or_key_error}
use tokenlyfy_v.Tools.Registry.{ToolClass, ToolRegistry, guarded, execute_tool}
use tokenlyfy_v.Tools.Chain.{
  Step, ToolChain, key_or, add_step, run_steps, execute, register_chain, execute_chain,
  create_simple_chain,
}
use tokenlyfy_v.Tools.Chain.Runs.{Ends, execute-Ends, execute_keeps_others}

instance abbrev counting : ToolClass
counting = record {
  Tool = String;
  World = ℕ;
  name = λ t. t;
  description = λ t. "a tool";
  expandable = λ t. false;
  get_expanded_tools = λ t. none;
  run = λ t input w. (ok (concat (t ∷ ":" ∷ input ∷ [])), w + 1);
  describe = λ e. "e";
  number = λ n. "n";
}

program : Unit {0}
unfolding Dict.get Dict.put concat guarded execute_tool key_or add_step run_steps execute
    register_chain execute_chain contains
program = tt

-- Templates that are one variable, and others that hold none.
abbrev format : String → Dict String → Outcome String
format template context =
    if template == "{input}"
    then or_key_error "input" (Dict.get "input" context)
    else if template == "{result}"
    then or_key_error "result" (Dict.get "result" context)
    else if template == "{missing}"
    then or_key_error "missing" (Dict.get "missing" context)
    else ok template

abbrev registry : ToolRegistry
registry = record { tools = ("my_calculator", "my_calculator") ∷ []; functions = [] }

simple_run :
    execute format create_simple_chain registry "1" none 0
    ≡ (ok "my_calculator:1", (("input", "1") ∷ ("result", "my_calculator:1") ∷ [], 1))
unfolding program
simple_run = refl

abbrev broken_steps : List Step
broken_steps =
    record { tool_name = "my_calculator"; input_template = "{input}"; output_key = "result" }
    ∷ record { tool_name = "my_calculator"; input_template = "{missing}"; output_key = "more" }
    ∷ record { tool_name = "my_calculator"; input_template = "{result}"; output_key = "last" }
    ∷ []

abbrev broken : ToolChain
broken = record { name = "broken"; description = ""; steps = broken_steps }

broken_run :
    execute format broken registry "1" none 0
    ≡ (ok "❌ 模板变量替换失败: e", (("input", "1") ∷ ("result", "my_calculator:1") ∷ [], 1))
unfolding program
broken_run = refl

execute-Ends_example :
    Ends format registry broken_steps "1"
      (Dict.put "input" "1" [])
      0
      (execute format broken registry "1" (some []) 0)
execute-Ends_example =
    execute-Ends format registry broken
      (record { tool_name = "my_calculator"; input_template = "{input}"; output_key = "result" })
      (record { tool_name = "my_calculator"; input_template = "{missing}"; output_key = "more" }
        ∷ record { tool_name = "my_calculator"; input_template = "{result}"; output_key = "last" }
        ∷ [])
      "1" [] 0 refl

other_key : contains "user" (map (λ (s : Step). s.output_key) broken_steps) ≡ false
unfolding program
other_key = refl

execute_keeps_others_example :
    Dict.get "user" (execute format broken registry "1" (some (("user", "u") ∷ [])) 0).1.0
    ≡ Dict.get "user" (("user", "u") ∷ [])
execute_keeps_others_example =
    execute_keeps_others format registry broken "1" "user" (("user", "u") ∷ []) 0 refl other_key
