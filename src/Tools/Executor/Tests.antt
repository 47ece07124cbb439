-- ===== src/Tools/Executor/Tests.antt =====
-- tools/async_executor.py over a registry with one tool, in a world that counts its runs.
use tokenlyfy_v.Support.{ℕ, ◌+◌, String, none, some, List, [], ◌∷◌, false, ◌≡◌, refl}
use tokenlyfy_v.Support.Dict
use tokenlyfy_v.Support.Message.{concat}
use tokenlyfy_v.Support.Outcome.{ok, raise, key_error}
use tokenlyfy_v.Tools.Registry.{ToolClass, ToolRegistry, guarded, execute_tool}
use tokenlyfy_v.Tools.Executor.{
  TaskResult, named_tasks, execute_tool_async, await_each, execute_tools_parallel,
  execute_tools_batch,
}
use tokenlyfy_v.Tools.Executor.Batch.{Runs, execute_tools_batch-Runs}

instance abbrev sample_kit : ToolClass
sample_kit = record {
  Tool = String;
  World = ℕ;
  name = λ t. t;
  description = λ t. "a tool";
  expandable = λ t. false;
  get_expanded_tools = λ t. none;
  run = λ t input w. (ok (concat (t ∷ ":" ∷ input ∷ [])), w + 1);
  describe = λ e. "e";
  number = λ n. "n";
}

abbrev sample_registry : ToolRegistry
sample_registry = record { tools = ("left", "left") ∷ []; functions = [] }

program : Unit {0}
unfolding execute_tools_parallel named_tasks await_each execute_tool_async execute_tool guarded
    Dict.get concat
program = tt

-- A task without input is run, and then the whole call raises.
missing_input_raises :
    execute_tools_parallel sample_registry
      (record { tool_name = some "left"; input_data = none } ∷ [])
      0
    ≡ (raise (key_error "input_data"), 1)
unfolding program
missing_input_raises = refl

execute_tools_batch-Runs_example :
    (results : List TaskResult) × (w' : ℕ) × (execute_tools_batch sample_registry "left"
        ("a" ∷ "b" ∷ [])
        0
      ≡ (ok results, w'))
    × Runs sample_registry "left" 0 ("a" ∷ "b" ∷ []) 0 results w'
execute_tools_batch-Runs_example =
    execute_tools_batch-Runs sample_registry "left" ("a" ∷ "b" ∷ []) 0 refl
