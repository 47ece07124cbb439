-- ===== src/Agents/PlanSolve/Tests.antt =====
-- agents/plan_solve_agent.py over a model that plans one step and then calls a tool in every answer.
use tokenlyfy_v.Support.{
  ℕ, ◌+◌, ◌*◌, ◌≤◌, some, List, [], ◌∷◌, true, ◌≡◌, refl, length, map, eqb, if◌then◌else◌,
}
use tokenlyfy_v.Support.Text.{Text, is_space, strip}
use tokenlyfy_v.Support.Find.{codes, find, starts_with}
use tokenlyfy_v.Support.Outcome.{ok}
use tokenlyfy_v.Support.Action.{return, modify, ◌>>=◌}
use tokenlyfy_v.Agents.PlanSolve.{
  Host, until, match_call, calls_from, parse_tool_calls, first_part, second_part,
}
use tokenlyfy_v.Agents.PlanSolve.Agent.{
  PlanAndSolveAgent, read_plan, plan_for, run_tool, run_tools, rounds, run_step_with_tools,
  run_plan, execute, answer_of, solve, on_world, add_message, run,
}
use tokenlyfy_v.Agents.PlanSolve.Parsing.{call_of, render, parse_tool_calls-render, Piece}
use tokenlyfy_v.Agents.PlanSolve.Rounds.{Counter, IsRead, run_step_with_tools-IsRead, execute-asked}
use tokenlyfy_v.Agents.PlanSolve.Record.{IsRecorded, run-IsRecorded}

abbrev plan_answer : Text
plan_answer = codes "```python\n[]\n```"

abbrev tool_answer : Text
tool_answer = codes "I ask [TOOL_CALL:price:BTC]"

-- The world counts the calls of the model.
instance abbrev sample_host : Host
sample_host = record {
  World = ℕ;
  Time = ℕ;
  Step = Text;
  invoke = λ messages w. (ok (some (if eqb w 0 then plan_answer else tool_answer)), w + 1);
  now = λ w. (w, w);
  execute_tool = λ name parameters w. (ok (codes "7"), w);
  tools_description = codes "price";
  planner_format = λ question. ok question;
  executor_format = λ question plan history step. ok step;
  literal_eval = λ text. ok (some (codes "look up" ∷ []));
  str_number = λ n. codes "1";
  str_step = λ step. step;
  str_exception = λ e. codes "error";
}

abbrev sample_counter : Counter
sample_counter = record {
  asked = λ w. w;
  counts = λ messages w. refl;
  ignores = λ name parameters w. refl;
}

abbrev sample_agent : PlanAndSolveAgent
sample_agent = record { has_registry = true; history = []; world = 0 }

abbrev sample_pieces : List Piece
sample_pieces =
    record { before = codes "I ask "; name = codes "price"; parameters = codes "BTC" }
    ∷ record { before = codes " and "; name = codes " note"; parameters = codes "a:b " }
    ∷ []

program : Unit {0}
unfolding run solve plan_for read_plan second_part first_part find starts_with answer_of execute
    run_plan run_step_with_tools rounds run_tools run_tool parse_tool_calls calls_from match_call
    until is_space strip on_world add_message return modify ◌>>=◌
program = tt

-- The answer of a step that calls tools in all five rounds is the last call, which nobody answers.
open_call_returned : (run (codes "q") sample_agent).0 ≡ ok tool_answer
unfolding program
open_call_returned = refl

parse_tool_calls-render_example :
    parse_tool_calls (render sample_pieces (codes " done")) ≡ map call_of sample_pieces
parse_tool_calls-render_example =
    parse_tool_calls-render sample_pieces (codes " done")
      (
        (
          (refl, (refl, (refl, (refl, (refl, (refl, tt)))))),
          (refl, (refl, (refl, (refl, (refl, tt))))),
          (refl, (refl, (refl, tt))),
          refl,
          refl,
        ),
        (
          (
            (refl, (refl, (refl, (refl, (refl, tt))))),
            (refl, (refl, (refl, (refl, (refl, tt))))),
            (refl, (refl, (refl, (refl, tt)))),
            refl,
            refl,
          ),
          tt,
        ),
      )
      (refl, (refl, (refl, (refl, (refl, tt)))))

run_step_with_tools-IsRead_example :
    ((run_step_with_tools true (codes "q") [] [] (codes "look up") 1).1 ≤ 1 + 5)
    × IsRead sample_counter 5 1
        (run_step_with_tools true (codes "q") [] [] (codes "look up") 1).0
        (run_step_with_tools true (codes "q") [] [] (codes "look up") 1).1
run_step_with_tools-IsRead_example =
    run_step_with_tools-IsRead sample_counter true (codes "q") [] [] (codes "look up") 1

execute-asked_example :
    (execute true (codes "q") (codes "a" ∷ codes "b" ∷ []) 1).1
    ≤ 1 + 5 * length (codes "a" ∷ codes "b" ∷ [])
execute-asked_example = execute-asked sample_counter true (codes "q") (codes "a" ∷ codes "b" ∷ []) 1

run-IsRecorded_example :
    IsRecorded sample_agent.history
      (codes "q")
      (run (codes "q") sample_agent).0
      (run (codes "q") sample_agent).1.history
run-IsRecorded_example = run-IsRecorded (codes "q") sample_agent
