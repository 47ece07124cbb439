-- ===== src/Agents/PlanSolve/Record.antt =====
-- What a run of agents/plan_solve_agent.py leaves in the history of the agent.
use mathlib.Core.List.{append_assoc}
use tokenlyfy_v.Support.{inl, inr, List, [], ◌∷◌, ◌++◌, ◌≡◌, refl}
use tokenlyfy_v.Support.Text.{Text}
use tokenlyfy_v.Support.Find.{codes}
use tokenlyfy_v.Support.Outcome.{Outcome, ok, raise, Outcome-cases}
use tokenlyfy_v.Support.Action.{return, continue, modify, ◌>>=◌}
use tokenlyfy_v.Agents.PlanSolve.{Host}
use tokenlyfy_v.Agents.PlanSolve.Agent.{
  Message, PlanAndSolveAgent, solve, on_world, add_message, run,
}

module _ ⦃host : Host⦄ where
  open host use {Time}

  -- With an answer, the question and the answer come behind the history; without one, it is unchanged.
  abbrev pub IsRecorded : List Message → Text → Outcome Text → List Message → Type 0
  IsRecorded before input_text (ok answer) after =
      (t : Time) × (t' : Time) × (after
        ≡ before
          ++ record { content = input_text; role = codes "user"; timestamp = t }
            ∷ record { content = answer; role = codes "assistant"; timestamp = t' }
            ∷ [])
  IsRecorded before input_text (raise e) after = after ≡ before

  -- A run that answers adds its question and its answer to the history, and nothing else; a run that
  -- an exception ends leaves the history as it was.
  pub run-IsRecorded :
      (input_text : Text) (agent : PlanAndSolveAgent)
      → IsRecorded agent.history input_text
          (run input_text agent).0
          (run input_text agent).1.history
  unfolding run on_world add_message modify return ◌>>=◌
  run-IsRecorded input_text agent =
      elim (Outcome-cases (solve agent.has_registry input_text agent.world).0) [
        | inl (a, e) ↦ rw (run, e, continue) (_, _, append_assoc agent.history (_ ∷ []) _)
        | inr (x, e) ↦ rw (run, e) refl
      ]
