-- ===== src/Tools/Registry/Tests.antt =====
-- A registry over tools that are known by their names and count their runs.
use tokenlyfy_v.Support.{ℕ, ◌+◌, String, some, List, [], ◌∷◌, true, ◌==◌, ◌≡◌, refl, if◌then◌else◌}
use tokenlyfy_v.Support.Dict
use tokenlyfy_v.Support.Names.{contains}
use tokenlyfy_v.Support.Message.{concat}
use tokenlyfy_v.Support.Outcome.{ok, raise, value_error}
use tokenlyfy_v.Support.Action.{Action}
use tokenlyfy_v.Tools.Registry.{
  ToolClass, ToolRegistry, new_registry, put_tools, stored_tools, register_tool, register_function,
  unregister, guarded, execute_tool, list_tools,
}
use tokenlyfy_v.Tools.Registry.Directory.{
  Call, register, define, drop_name, apply, after, view, empty_view,
}
use tokenlyfy_v.Tools.Registry.Execution.{answer, execute_tool-after}

instance abbrev counting : ToolClass
counting = record {
  Tool = String;
  World = ℕ;
  name = λ t. t;
  description = λ t. "a tool";
  expandable = λ t. t == "suite";
  get_expanded_tools = λ t. some ("left" ∷ "right" ∷ []);
  run = λ t input w.
      (if t == "broken" then raise value_error else ok (concat (t ∷ ":" ∷ input ∷ [])), w + 1);
  describe = λ e. "e";
  number = λ n. "n";
}

abbrev shout : String → Action ℕ String
shout input w = (ok (concat (input ∷ "!" ∷ [])), w)

program : Unit {0}
unfolding Dict.get Dict.put Dict.delete Dict.has Dict.keys concat put_tools stored_tools
    register_tool register_function unregister guarded execute_tool list_tools apply after contains
program = tt

abbrev calls : List Call
calls =
    register "suite" true ∷ register "left" true ∷ define "left" "d" shout ∷ drop_name "left" ∷ []

expanded : list_tools (after new_registry calls) ≡ "right" ∷ "left" ∷ []
unfolding program
expanded = refl

broken_reported :
    execute_tool (register_tool new_registry "broken" true) "broken" "x" 4
    ≡ (ok "错误：执行工具 'broken' 时发生异常: e", 5)
unfolding program
broken_reported = refl

execute_tool-after_example :
    execute_tool (after new_registry calls) "left" "x" 0
    ≡ answer
        ((view empty_view calls).tool "left")
        ((view empty_view calls).function "left")
        "left"
        "x"
        0
execute_tool-after_example = execute_tool-after calls "left" "x" 0

abbrev shadowed : ToolRegistry
shadowed = record {
  tools = ("left", "left") ∷ [];
  functions = ("left", record { description = "d"; func = shout }) ∷ [];
}

left_tool : Dict.get "left" shadowed.tools ≡ some "left"
unfolding program
left_tool = refl

left_function :
    Dict.get "left" shadowed.functions ≡ some (record { description = "d"; func = shout })
unfolding program
left_function = refl
