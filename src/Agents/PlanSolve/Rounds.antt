-- ===== src/Agents/PlanSolve/Rounds.antt =====
-- How often the executor of agents/plan_solve_agent.py asks the model, and when its answer may hold
-- tool calls that nobody has read.
use tokenlyfy_v.Support.{
  ℕ, zero, suc, ◌+◌, ◌*◌, ◌≤◌, ◌⊎◌, inl, inr, List, [], ◌∷◌, ◌++◌, Bool, true, false, ◌≡◌, refl,
  ◌∙◌, length, if◌then◌else◌, arith,
}
use tokenlyfy_v.Support.Text.{Text, strip}
use tokenlyfy_v.Support.Find.{codes}
use tokenlyfy_v.Support.Outcome.{Outcome, ok, raise, Outcome-cases}
use tokenlyfy_v.Support.Action.{return, continue, ◌>>=◌}
use tokenlyfy_v.Agents.PlanSolve.{Host, ChatMessage, ToolCall, parse_tool_calls, is_empty}
use tokenlyfy_v.Agents.PlanSolve.Agent.{
  or_empty, run_tool, run_tools, rounds, run_step_with_tools, history_entry, run_plan, execute,
  observation,
}

pub list_cases : {A : Type 0} (xs : List A) → (xs ≡ []) ⊎ ((y : A) × (ys : List A) × (xs ≡ y ∷ ys))
list_cases [] = inl refl
list_cases (y ∷ ys) = inr (y, ys, refl)

module _ ⦃host : Host⦄ where
  open host use {World, Step, invoke, execute_tool, executor_format}

  -- A counter of the agent's own calls of the model
  pub record Counter : Type 0 where
    pub asked : World → ℕ
    pub counts :
        (messages : List ChatMessage) (w : World) → asked (invoke messages w).1 ≡ asked w + 1
    pub ignores :
        (name parameters : Text) (w : World) → asked (execute_tool name parameters w).1 ≡ asked w

  module _ (counter : Counter) where
    open counter use {asked, counts, ignores}

    run_tool-asked :
        (registry : Bool) (call : ToolCall) (w : World)
        → asked (run_tool registry call w).1 ≡ asked w
    unfolding run_tool
    run_tool-asked false call w = refl
    run_tool-asked true call w =
        elim (Outcome-cases (execute_tool call.tool_name call.parameters w).0) [
          | inl (a, e) ↦ rw (run_tool, e) (ignores call.tool_name call.parameters w)
          | inr (x, e) ↦ rw (run_tool, e) (ignores call.tool_name call.parameters w)
        ]

    run_tools-asked :
        (registry : Bool) (calls : List ToolCall) (w : World)
        → asked (run_tools registry calls w).1 ≡ asked w
    unfolding run_tools
    run_tools-asked registry [] w = refl
    run_tools-asked registry (call ∷ calls) w =
        run_tools-asked registry calls (run_tool registry call w).1 ∙ run_tool-asked registry call w

    -- An answer is read through, or all rounds were used up.
    abbrev pub IsRead : ℕ → World → Outcome Text → World → Type 0
    IsRead left w (ok a) after =
        ((response : Text) × (a ≡ strip response) × (parse_tool_calls response ≡ []))
        ⊎ (asked after ≡ asked w + left)
    IsRead left w (raise e) after = Unit

    IsRead-later :
        (left : ℕ) (w w' : World) (r : Outcome Text) (after : World)
        → asked w' ≡ asked w + 1
        → IsRead left w' r after
        → IsRead (suc left) w r after
    IsRead-later left w w' (ok a) after size (inl read) = inl read
    IsRead-later left w w' (ok a) after size (inr all) = inr (omega (arith, size, all))
    IsRead-later left w w' (raise e) after size read = tt

    rounds-IsRead :
        (registry : Bool) (left : ℕ) (last : Text) (messages : List ChatMessage) (w : World)
        → (asked (rounds registry left last messages w).1 ≤ asked w + left)
          × IsRead left w
              (rounds registry left last messages w).0
              (rounds registry left last messages w).1
    unfolding rounds return ◌>>=◌
    rounds-IsRead registry zero last messages w = (omega arith, inr (omega arith))
    rounds-IsRead registry (suc left) last messages w =
        let one = counts messages w in
        elim (Outcome-cases (invoke messages w).0) [
          | inr (x, e) ↦ rw (rounds, e) (omega (arith, one), tt)
          | inl (response, e) ↦ elim (list_cases (parse_tool_calls (or_empty response))) [
            | inl none_left ↦
                rw (rounds, e, continue, none_left)
                  (omega (arith, one), inl (or_empty response, refl, none_left))
            | inr (call, calls, more) ↦
                let (results, w') = run_tools registry (call ∷ calls) (invoke messages w).1 in
                let messages' : List ChatMessage =
                  messages
                  ++ record { role = codes "assistant"; content = or_empty response }
                    ∷ record { role = codes "user"; content = observation results }
                    ∷ [] in
                let size : asked w' ≡ asked w + 1 =
                  run_tools-asked registry (call ∷ calls) (invoke messages w).1 ∙ one in
                let (bound, read) = rounds-IsRead registry left (or_empty response) messages' w' in
                rw (rounds, e, continue, more)
                  (omega (arith, bound, size), IsRead-later left w w' _ _ size read)
          ]
        ]

    -- A step asks the model five times at most. The answer that it returns holds no tool call, unless
    -- all five rounds were used up.
    pub run_step_with_tools-IsRead :
        (registry : Bool) (question : Text) (plan : List Step) (history : Text) (step : Step)
        (w : World)
        → (asked (run_step_with_tools registry question plan history step w).1 ≤ asked w + 5)
          × IsRead 5 w
              (run_step_with_tools registry question plan history step w).0
              (run_step_with_tools registry question plan history step w).1
    unfolding run_step_with_tools ◌>>=◌
    run_step_with_tools-IsRead registry question plan history step w =
        elim (Outcome-cases
          (executor_format question plan (if is_empty history then codes "无" else history) step)) [
            | inl (prompt, e) ↦ rw e (rounds-IsRead registry 5 [] _ w)
            | inr (x, e) ↦ rw e (omega arith, tt)
          ]

    run_plan-asked :
        (registry : Bool) (question : Text) (plan : List Step) (i : ℕ) (history final_answer : Text)
        (steps : List Step) (w : World)
        → asked (run_plan registry question plan i history final_answer steps w).1
          ≤ asked w + 5 * length steps
    unfolding run_plan ◌>>=◌ return
    run_plan-asked registry question plan i history final_answer [] w = omega arith
    run_plan-asked registry question plan i history final_answer (step ∷ steps) w =
        let (now, _) = run_step_with_tools-IsRead registry question plan history step w in
        let (r, w') = run_step_with_tools registry question plan history step w in
        elim (Outcome-cases (run_step_with_tools registry question plan history step w).0) [
          | inr (x, e) ↦ rw (run_plan, e) (omega (arith, now))
          | inl (a, e) ↦
              let later =
                run_plan-asked registry question plan (i + 1) (history ++ history_entry i step a) a
                  steps w' in
              rw (run_plan, e) (omega (arith, now, later))
        ]

    -- The execution of a plan asks the model five times for each step at most, whatever the model
    -- answers and whatever the tools do.
    pub execute-asked :
        (registry : Bool) (question : Text) (plan : List Step) (w : World)
        → asked (execute registry question plan w).1 ≤ asked w + 5 * length plan
    unfolding execute
    execute-asked registry question plan w = run_plan-asked registry question plan 1 [] [] plan w
