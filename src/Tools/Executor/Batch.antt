-- ===== src/Tools/Executor/Batch.antt =====
-- What tools/async_executor.py answers, compared with calls of the registry one after the other.
use tokenlyfy_v.Support.{
  ℕ, ◌+◌, String, Option, some, List, [], ◌∷◌, false, ◌≡◌, refl, ap, ◌∙◌, ◌==◌, map,
}
use tokenlyfy_v.Support.Message.{concat}
use tokenlyfy_v.Support.Outcome.{Outcome, ok, raise}
use tokenlyfy_v.Tools.Registry.{ToolClass, ToolRegistry, execute_tool}
use tokenlyfy_v.Tools.Registry.Execution.{execute_tool_returns}
use tokenlyfy_v.Tools.Executor.{
  TaskResult, input_or_empty, named_tasks, execute_tool_async, await_each, execute_tools_parallel,
  execute_tools_batch,
}

module _ ⦃kit : ToolClass⦄ where
  open kit use {World, describe}

  -- The results of running one tool on each input, one call of the registry after the other.
  pub data Runs (registry : ToolRegistry) (tool_name : String)
      : ℕ → List String → World → List TaskResult → World → Type 0 where
    nothing : (i : ℕ) (w : World) → Runs registry tool_name i [] w [] w
    one :
        (i : ℕ) (input : String) (inputs : List String) (w w' w'' : World) (text : String)
        (results : List TaskResult)
        → execute_tool registry tool_name input w ≡ (ok text, w')
        → Runs registry tool_name (i + 1) inputs w' results w''
        → Runs registry tool_name i
            (input ∷ inputs)
            w
            (record {
              task_id = i;
              tool_name = tool_name;
              input_data = input;
              result = text;
              status = "success";
            }
              ∷ results)
            w''

  execute_tool_async-answer :
      (registry : ToolRegistry) (tool_name input text : String) (w w' : World)
      → execute_tool registry tool_name input w ≡ (ok text, w')
      → execute_tool_async registry tool_name (input_or_empty (some input)) w ≡ (text, w')
  unfolding execute_tool_async
  execute_tool_async-answer registry tool_name input text w w' e =
      ap
        (λ (p : Outcome String × World). elim p.0 [
          | ok result ↦ (result, p.1)
          | raise x ↦ (concat ("❌ 工具 '" ∷ tool_name ∷ "' 异步执行失败: " ∷ describe x ∷ []), p.1)
        ])
        e

  abbrev succeeded : ℕ → String → String → String → TaskResult
  succeeded i tool_name input text = record {
    task_id = i;
    tool_name = tool_name;
    input_data = input;
    result = text;
    status = "success";
  }

  abbrev in_front :
      TaskResult → Outcome (List TaskResult) × World → Outcome (List TaskResult) × World
  in_front first p = elim p.0 [
    | raise e ↦ (raise e, p.1)
    | ok results ↦ (ok (first ∷ results), p.1)
  ]

  await_each-step :
      (registry : ToolRegistry) (tool_name input text : String) (i : ℕ)
      (tasks : List (ℕ × (String × Option String))) (w w' w'' : World) (results : List TaskResult)
      → execute_tool registry tool_name input w ≡ (ok text, w')
      → await_each registry tasks w' ≡ (ok results, w'')
      → await_each registry ((i, (tool_name, some input)) ∷ tasks) w
        ≡ (ok (succeeded i tool_name input text ∷ results), w'')
  unfolding await_each
  await_each-step registry tool_name input text i tasks w w' w'' results e rest =
      ap
        (λ (p : String × World).
          in_front (succeeded i tool_name input p.0) (await_each registry tasks p.1))
        (execute_tool_async-answer registry tool_name input text w w' e)
      ∙ ap (in_front (succeeded i tool_name input text)) rest

  batch_runs :
      (registry : ToolRegistry) (tool_name : String) (i : ℕ) (inputs : List String) (w : World)
      → tool_name == "" ≡ false
      → (results : List TaskResult) × (w' : World) × (await_each registry
            (named_tasks i
              (map (λ d. record { tool_name = some tool_name; input_data = some d }) inputs))
            w
          ≡ (ok results, w'))
        × Runs registry tool_name i inputs w results w'
  unfolding named_tasks await_each
  batch_runs registry tool_name i [] w named = ([], w, refl, nothing i w)
  batch_runs registry tool_name i (input ∷ inputs) w named =
      let (text, w', e) = execute_tool_returns registry tool_name input w in
      let (results, w'', rest, runs) = batch_runs registry tool_name (i + 1) inputs w' named in
      (
        succeeded i tool_name input text ∷ results,
        w'',
        rw named (
            await_each-step registry tool_name input text i
              (named_tasks (i + 1)
                (map (λ d. record { tool_name = some tool_name; input_data = some d }) inputs))
              w w' w'' results e rest),
        one i input inputs w w' w'' text results e runs,
      )

  -- With a tool name, a batch never raises: it has one result for each input, in order, with the text
  -- that the registry gives when it is called on the inputs one after the other, and each counts as a
  -- success.
  pub execute_tools_batch-Runs :
      (registry : ToolRegistry) (tool_name : String) (inputs : List String) (w : World)
      → tool_name == "" ≡ false
      → (results : List TaskResult) × (w' : World) × (execute_tools_batch registry tool_name inputs
            w
          ≡ (ok results, w'))
        × Runs registry tool_name 0 inputs w results w'
  unfolding execute_tools_batch execute_tools_parallel
  execute_tools_batch-Runs registry tool_name inputs w named =
      batch_runs registry tool_name 0 inputs w named
