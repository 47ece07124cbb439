-- ===== src/Tools/Executor.antt =====
-- `AsyncToolExecutor` of tools/async_executor.py over the tool registry. The coroutines start when they
-- are awaited, so the tools run one after the other. What it prints and the thread pool are left out.
pub mod Batch
mod Tests
use tokenlyfy_v.Support.{
  ℕ, ◌+◌, String, Option, none, some, List, [], ◌∷◌, Bool, true, false, not, ◌==◌, map,
  if◌then◌else◌,
}
use tokenlyfy_v.Support.Message.{concat}
use tokenlyfy_v.Support.Outcome.{Outcome, ok, raise, key_error}
use tokenlyfy_v.Support.Action.{Action}
use tokenlyfy_v.Tools.Registry.{ToolClass, ToolRegistry, execute_tool}

-- An entry of `tasks`, in which keys may be missing
pub record Task : Type 0 where
  pub tool_name : Option String
  pub input_data : Option String

pub record TaskResult : Type 0 where
  pub task_id : ℕ
  pub tool_name : String
  pub input_data : String
  pub result : String
  pub status : String

-- The tasks that have a tool name, with their places
unfoldable pub named_tasks : ℕ → List Task → List (ℕ × (String × Option String))
named_tasks i [] = []
named_tasks i (task ∷ tasks) =
    let rest = named_tasks (i + 1) tasks in
    elim task.tool_name [
      | none ↦ rest
      | some n ↦ if n == "" then rest else (i, (n, task.input_data)) ∷ rest
    ]

-- `task.get("input_data", "")`
abbrev pub input_or_empty : Option String → String
input_or_empty none = ""
input_or_empty (some d) = d

module _ ⦃kit : ToolClass⦄ where
  open kit use {World, describe}

  -- The status is beside the result.
  unfoldable pub execute_tool_async : ToolRegistry → String → String → World → String × World
  execute_tool_async registry tool_name input_data w =
      let (r, w') = execute_tool registry tool_name input_data w in
      elim r [
        | ok result ↦ (result, w')
        | raise e ↦ (concat ("❌ 工具 '" ∷ tool_name ∷ "' 异步执行失败: " ∷ describe e ∷ []), w')
      ]

  -- The loop over `async_tasks`. A missing input raises in the `try` and again in its handler.
  unfoldable pub await_each :
      ToolRegistry → List (ℕ × (String × Option String)) → Action World (List TaskResult)
  unfolding execute_tool_async
  await_each registry [] w = (ok [], w)
  await_each registry ((i, (n, input)) ∷ tasks) w =
      let (result, w') = execute_tool_async registry n (input_or_empty input) w in
      let (rest, w'') = await_each registry tasks w' in
      elim input [
        | none ↦ (raise (key_error "input_data"), w')
        | some d ↦ elim rest [
          | raise e ↦ (raise e, w'')
          | ok results ↦ (
            ok (
                record {
                  task_id = i;
                  tool_name = n;
                  input_data = d;
                  result = result;
                  status = "success";
                }
                ∷ results),
            w'',
          )
        ]
      ]

  unfoldable pub execute_tools_parallel : ToolRegistry → List Task → Action World (List TaskResult)
  unfolding named_tasks await_each
  execute_tools_parallel registry tasks = await_each registry (named_tasks 0 tasks)

  unfoldable pub execute_tools_batch :
      ToolRegistry → String → List String → Action World (List TaskResult)
  unfolding execute_tools_parallel
  execute_tools_batch registry tool_name input_list =
      execute_tools_parallel registry
        (map (λ d. record { tool_name = some tool_name; input_data = some d }) input_list)
