-- ===== src/Agents/PlanSolve/Agent.antt =====
-- The planner, the executor and the agent of agents/plan_solve_agent.py.
use tokenlyfy_v.Support.{
  ℕ, zero, suc, ◌+◌, Option, none, some, List, [], ◌∷◌, ◌++◌, Bool, true, false, not, ◌&&◌,
  if◌then◌else◌,
}
use tokenlyfy_v.Support.Text.{Text, same, strip}
use tokenlyfy_v.Support.Find.{codes}
use tokenlyfy_v.Support.Outcome.{Outcome, ok, raise}
use tokenlyfy_v.Support.Action.{Action, return, modify, ◌>>=◌, ◌>>◌}
use tokenlyfy_v.Agents.PlanSolve.{
  Host, ChatMessage, ToolCall, is_empty, parse_tool_calls, join_results, first_part, second_part,
}

module _ ⦃host : Host⦄ where
  open host use {
    World, Time, Step, invoke, now, execute_tool, tools_description, planner_format,
    executor_format, literal_eval, str_number, str_step, str_exception,
  }

  pub record Message : Type 0 where
    pub content : Text
    pub role : Text
    pub timestamp : Time

  pub record PlanAndSolveAgent : Type 0 where
    pub has_registry : Bool
    pub history : List Message
    pub world : World

  abbrev pub raised : {A : Type 0} → Outcome A → Action World A
  raised r w = (r, w)

  -- `invoke(...) or ""`
  abbrev pub or_empty : Option Text → Text
  or_empty none = []
  or_empty (some t) = t

  -- Any exception while the answer is read leaves an empty plan.
  unfoldable pub read_plan : Text → List Step
  unfolding second_part
  read_plan response_text = elim (second_part (codes "```python") response_text) [
    | raise e ↦ []
    | ok block ↦ elim (literal_eval (strip (first_part (codes "```") block))) [
      | ok (some plan) ↦ plan
      | ok none ↦ []
      | raise e ↦ []
    ]
  ]

  unfoldable pub plan_for : Text → Action World (List Step)
  unfolding read_plan
  plan_for question = do
    prompt ← raised (planner_format question)
    response ← invoke (record { role = codes "user"; content = prompt } ∷ [])
    return (read_plan (or_empty response))

  -- `_execute_tool`
  unfoldable pub run_tool : Bool → ToolCall → World → Text × World
  run_tool false call w = (codes "❌ 未配置工具注册表", w)
  run_tool true call w =
      let (r, w') = execute_tool call.tool_name call.parameters w in
      elim r [
        | ok result ↦ (codes "🔧 工具 " ++ call.tool_name ++ codes " 执行结果：\n" ++ result, w')
        | raise e ↦ (codes "❌ 工具 " ++ call.tool_name ++ codes " 调用失败: " ++ str_exception e, w')
      ]

  unfoldable pub run_tools : Bool → List ToolCall → World → List Text × World
  unfolding run_tool
  run_tools registry [] w = ([], w)
  run_tools registry (call ∷ calls) w =
      let (result, w) = run_tool registry call w in
      let (results, w) = run_tools registry calls w in (result ∷ results, w)

  abbrev pub observation : List Text → Text
  observation results =
      codes "Observation:\n" ++ join_results results ++ codes "\n\n请基于以上工具结果，继续完成当前步骤并输出最终答案。"

  -- The loop of `_run_step_with_tools`, with the last answer and the rounds that are left
  unfoldable pub rounds : Bool → ℕ → Text → List ChatMessage → Action World Text
  unfolding run_tools
  rounds registry zero response_text messages = return (strip response_text)
  rounds registry (suc left) last messages = invoke messages >>= λ response w.
      elim (parse_tool_calls (or_empty response)) [
        | [] ↦ (ok (strip (or_empty response)), w)
        | call ∷ calls ↦
            let (results, w) = run_tools registry (call ∷ calls) w in
            rounds registry left (or_empty response)
              (messages
                ++ record { role = codes "assistant"; content = or_empty response }
                  ∷ record { role = codes "user"; content = observation results }
                  ∷ [])
              w
      ]

  abbrev pub with_tools : Bool → Text → Text
  with_tools registry base_prompt =
      if registry
        && (not (is_empty tools_description) && not (same tools_description (codes "暂无可用工具")))
      then codes "# 可用工具（需要数据时请调用）\n"
        ++ tools_description
        ++ codes "\n\n调用格式: [TOOL_CALL:工具名:参数]，例如 [TOOL_CALL:crypto_price:BTC,ETH]\n\n"
        ++ base_prompt
      else base_prompt

  unfoldable pub run_step_with_tools : Bool → Text → List Step → Text → Step → Action World Text
  unfolding rounds
  run_step_with_tools registry question plan history step = do
    base_prompt ←
        raised
          (executor_format question plan (if is_empty history then codes "无" else history) step)
    rounds registry 5 []
        (record { role = codes "user"; content = with_tools registry base_prompt } ∷ [])

  abbrev pub history_entry : ℕ → Step → Text → Text
  history_entry i step response_text =
      codes "步骤 "
      ++ str_number i
      ++ codes ": "
      ++ str_step step
      ++ codes "\n结果: "
      ++ response_text
      ++ codes "\n\n"

  -- The loop of `execute` over the steps that are left
  unfoldable pub run_plan :
      Bool → Text → List Step → ℕ → Text → Text → List Step → Action World Text
  unfolding run_step_with_tools
  run_plan registry question plan i history final_answer [] = return final_answer
  run_plan registry question plan i history final_answer (step ∷ steps) = do
    response_text ← run_step_with_tools registry question plan history step
    run_plan registry question plan (i + 1) (history ++ history_entry i step response_text)
        response_text steps

  unfoldable pub execute : Bool → Text → List Step → Action World Text
  unfolding run_plan
  execute registry question plan = run_plan registry question plan 1 [] [] plan

  unfoldable pub answer_of : Bool → Text → List Step → Action World Text
  unfolding execute
  answer_of registry input_text [] = return (codes "无法生成有效的行动计划，任务终止。")
  answer_of registry input_text (step ∷ steps) = execute registry input_text (step ∷ steps)

  -- What `run` does before it adds messages
  unfoldable pub solve : Bool → Text → Action World Text
  unfolding plan_for answer_of
  solve registry input_text = do plan ← plan_for input_text; answer_of registry input_text plan

  unfoldable pub on_world : {A : Type 0} → Action World A → Action PlanAndSolveAgent A
  on_world m agent = let (r, w) = m agent.world in (r, record agent { world = w })

  -- `self.add_message(Message(content, role))`
  unfoldable pub add_message : Text → Text → Action PlanAndSolveAgent (Unit {0})
  add_message content role = modify (λ agent.
      let (time, w) = now agent.world in
      record agent {
        history = agent.history ++ record { content = content; role = role; timestamp = time } ∷ [];
        world = w;
      })

  unfoldable pub run : Text → Action PlanAndSolveAgent Text
  unfolding solve add_message
  run input_text agent =
      (do
        final_answer ← on_world (solve agent.has_registry input_text)
        add_message input_text (codes "user")
        add_message final_answer (codes "assistant")
        return final_answer)
        agent
