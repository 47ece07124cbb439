-- ===== src/Agents/Reflection/Tests.antt =====
-- A run whose second reflection is satisfied, and the bound on its memory.
use tokenlyfy_v.Support.{
  ℕ, ◌+◌, ◌*◌, ◌≤◌, some, [], ◌∷◌, ◌==◌, ◌≡◌, refl, if◌then◌else◌, length, ltb,
}
use tokenlyfy_v.Support.Outcome.{ok}
use tokenlyfy_v.Support.Action.{return, gets, modify, ◌>>=◌}
use tokenlyfy_v.Agents.Reflection.{
  Model, ReflectionAgent, add_record, first_execution, get_last_execution, filled, get_llm_response,
  is_satisfied, iterate, add_message, attempt, run,
}
use tokenlyfy_v.Agents.Reflection.Record.{run_records}

-- The model counts its calls and says "good" from the fourth on.
instance abbrev counting : Model
counting = record {
  World = ℕ;
  invoke = λ prompt n. (ok (if ltb n 3 then some "more" else some "good"), n + 1);
  now = λ n. (ok "t", n);
  format = λ template values. ok template;
  is_in = λ part text. text == "good";
  lower = λ text. text;
}

program : Unit {0}
unfolding return gets modify ◌>>=◌ add_record first_execution get_last_execution filled
    get_llm_response is_satisfied iterate add_message attempt run
program = tt

abbrev fresh : ReflectionAgent
fresh = record {
  max_iterations = 5;
  prompts = record { initial = "i"; reflect = "r"; refine = "f" };
  records = record { type = "execution"; content = "old" } ∷ [];
  history = [];
  world = 0;
}

stops_early : (run "task" fresh).0 ≡ ok "more"
unfolding program
stops_early = refl

four_records : length (run "task" fresh).1.records ≡ 4
unfolding program
four_records = refl

run_records_example : length (run "task" fresh).1.records ≤ 1 + 2 * fresh.max_iterations
run_records_example = run_records "task" fresh
