-- ===== src/Agents/Simple/Loop.antt =====
-- How often `SimpleAgent` of agents/simple_agent.py asks the model, and what a run leaves.
use tokenlyfy_v.Support.{
  ℕ, zero, suc, ◌+◌, ◌≤◌, ◌⊎◌, inl, inr, List, [], ◌∷◌, ◌++◌, ◌≡◌, refl, ◌∙◌, Option-cases,
  Bool-cases, arith,
}
use tokenlyfy_v.Support.Text.{Text}
use tokenlyfy_v.Support.Find.{codes}
use tokenlyfy_v.Support.Outcome.{Exception, ok, raise, Outcome-cases}
use tokenlyfy_v.Support.Action.{return, continue, ◌>>=◌}
use tokenlyfy_v.Agents.PlanSolve.{ChatMessage, ToolCall, parse_tool_calls, join_results}
use tokenlyfy_v.Agents.PlanSolve.Rounds.{list_cases}
use tokenlyfy_v.Agents.Simple.{
  Kit, SimpleAgent, clean, execute_tool_call, execute_tool_calls, parse_tool_parameters, rounds,
  messages_for, run,
}

module _ ⦃kit : Kit⦄ where
  open kit use {World, Tool, Value, invoke, get_tool, run_tool}

  -- A counter of the agent's own calls of the model
  pub record Counter : Type 0 where
    pub asked : World → ℕ
    pub counts :
        (messages : List ChatMessage) (w : World) → asked (invoke messages w).1 ≡ asked w + 1
    pub ignores :
        (tool : Tool) (parameters : List (Text × Value)) (w : World)
        → asked (run_tool tool parameters w).1 ≡ asked w

  module _ (counter : Counter) where
    open counter use {asked, counts, ignores}

    execute_tool_call-asked :
        (call : ToolCall) (w : World) → asked (execute_tool_call call w).1 ≡ asked w
    unfolding execute_tool_call
    execute_tool_call-asked call w = elim (Option-cases (get_tool call.tool_name)) [
      | inl e ↦ rw (execute_tool_call, e) refl
      | inr (tool, e) ↦
          let parameters = parse_tool_parameters call.tool_name call.parameters in
          elim (Outcome-cases (run_tool tool parameters w).0) [
            | inl (a, e') ↦ rw (execute_tool_call, e, e') (ignores tool parameters w)
            | inr (x, e') ↦ rw (execute_tool_call, e, e') (ignores tool parameters w)
          ]
    ]

    execute_tool_calls-asked :
        (calls : List ToolCall) (w : World) → asked (execute_tool_calls calls w).1 ≡ asked w
    unfolding execute_tool_calls
    execute_tool_calls-asked [] w = refl
    execute_tool_calls-asked (call ∷ calls) w =
        execute_tool_calls-asked calls (execute_tool_call call w).1 ∙ execute_tool_call-asked call w

    rounds-asked :
        (left : ℕ) (messages : List ChatMessage) (w : World)
        → asked (rounds left messages w).1 ≤ asked w + (left + 1)
    unfolding rounds ◌>>=◌
    rounds-asked zero messages w = omega (arith, counts messages w)
    rounds-asked (suc left) messages w =
        let one = counts messages w in
        elim (Outcome-cases (invoke messages w).0) [
          | inr (x, e) ↦ rw (rounds, e) (omega (arith, one))
          | inl (response, e) ↦ elim (list_cases (parse_tool_calls response)) [
            | inl none_left ↦ rw (rounds, e, continue, none_left) (omega (arith, one))
            | inr (call, calls, more) ↦
                let (results, w') = execute_tool_calls (call ∷ calls) (invoke messages w).1 in
                let messages' : List ChatMessage =
                  messages
                  ++ record { role = codes "assistant"; content = clean (call ∷ calls) response }
                    ∷ record {
                      role = codes "user";
                      content =
                          codes "工具执行结果：\n" ++ join_results results ++ codes "\n\n请基于这些结果给出完整的回答。";
                    }
                    ∷ [] in
                let size : asked w' ≡ asked w + 1 =
                  execute_tool_calls-asked (call ∷ calls) (invoke messages w).1 ∙ one in
                let bound = rounds-asked left messages' w' in
                rw (rounds, e, continue, more) (omega (arith, bound, size))
          ]
        ]

    -- A run asks the model once more than the iterations that it is allowed at most. Where it returns, the
    -- question and the answer stand behind the history, and nothing else is changed.
    pub run-asked :
        (input_text : Text) (max_tool_iterations : ℕ) (agent : SimpleAgent) (w : World)
        → (asked (run input_text max_tool_iterations agent w).1
            ≤ asked w + (max_tool_iterations + 1))
          × (((e : Exception) × ((run input_text max_tool_iterations agent w).0 ≡ raise e))
              ⊎ ((response : Text) × ((run input_text max_tool_iterations agent w).0
                    ≡ ok (
                      response,
                      record agent {
                        history =
                            agent.history
                            ++ record { role = codes "user"; content = input_text }
                              ∷ record { role = codes "assistant"; content = response }
                              ∷ [];
                      },
                    ))))
    unfolding run return ◌>>=◌
    run-asked input_text max_tool_iterations agent w = elim (Bool-cases agent.enable_tool_calling) [
      | inl on ↦
          let bound = rounds-asked max_tool_iterations (messages_for agent input_text) w in
          elim (Outcome-cases (rounds max_tool_iterations (messages_for agent input_text) w).0) [
            | inl (a, e) ↦ rw (on, e, continue) (bound, inr (a, refl))
            | inr (x, e) ↦ rw (on, e, continue) (bound, inl (x, refl))
          ]
      | inr off ↦
          let one = counts (messages_for agent input_text) w in
          elim (Outcome-cases (invoke (messages_for agent input_text) w).0) [
            | inl (a, e) ↦ rw (off, e, continue) (omega (arith, one), inr (a, refl))
            | inr (x, e) ↦ rw (off, e, continue) (omega (arith, one), inl (x, refl))
          ]
    ]
