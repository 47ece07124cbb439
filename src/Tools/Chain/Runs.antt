-- ===== src/Tools/Chain/Runs.antt =====
-- The runs of a chain's steps, as a relation, and what `execute` of tools/chain.py makes of them.
use tokenlyfy_v.Support.{
  String, some, List, [], ◌∷◌, ◌++◌, false, ◌==◌, ◌≡◌, ◌⊎◌, ◌≢◌, refl, sym, ap, ◌∙◌, arith, inl,
  inr, map,
}
use tokenlyfy_v.Support.Dict
use tokenlyfy_v.Support.Dict.{Dict}
use tokenlyfy_v.Support.Names.{contains}
use tokenlyfy_v.Support.Outcome.{
  Outcome, ok, raise, Exception, key_error, type_error, value_error, index_error, other_error,
  Outcome-cases,
}
use tokenlyfy_v.Tools.Registry.{ToolClass, ToolRegistry, execute_tool}
use tokenlyfy_v.Tools.Registry.Execution.{execute_tool_returns}
use tokenlyfy_v.Support.Message.{concat}
use tokenlyfy_v.Tools.Chain.{Step, ToolChain, run_steps, execute, stopped}

module _ ⦃kit : ToolClass⦄ (format : String → Dict String → Outcome String) (r : ToolRegistry) where
  open kit use {World, describe}

  -- The steps run to their end: each template is filled from the context at that time, the tool's
  -- answer is stored under the step's key, and the last answer is the result.
  pub data Runs
      : List Step → String → Dict String → World → String → Dict String → World → Type 0 where
    done :
        (result : String) (context : Dict String) (w : World)
        → Runs [] result context w result context w
    next :
        (step : Step) (steps : List Step) (before input answer result : String)
        (context last : Dict String) (w w' w'' : World)
        → format step.input_template context ≡ ok input
        → execute_tool r step.tool_name input w ≡ (ok answer, w')
        → Runs steps answer (Dict.put step.output_key answer context) w' result last w''
        → Runs (step ∷ steps) before context w result last w''

  -- The first step whose template cannot be filled, and where the steps before it ended.
  pub record Stops (steps : List Step) (before : String) (context : Dict String) (w : World)
      : Type 0 where
    pub earlier : List Step
    pub failing : Step
    pub later : List Step
    pub whole : steps ≡ earlier ++ failing ∷ later
    pub result : String
    pub reached : Dict String
    pub world : World
    pub runs : Runs earlier before context w result reached world
    pub reason : Exception
    pub fails : format failing.input_template reached ≡ raise reason

  -- How a chain answers when a template raises: a missing variable is reported in a text, any other
  -- exception leaves the call.
  abbrev pub IsReported : Exception → Outcome String → Type 0
  IsReported e answer =
      ((k : String) × (e ≡ key_error k) × (answer ≡ ok (concat ("❌ 模板变量替换失败: " ∷ describe e ∷ []))))
      ⊎ (((k : String) → e ≢ key_error k) × (answer ≡ raise e))

  stopped-IsReported : (e : Exception) → IsReported e (stopped format e)
  stopped-IsReported (key_error k) = inl (k, refl, refl)
  stopped-IsReported type_error = inr (λ k h. cc, refl)
  stopped-IsReported value_error = inr (λ k h. cc, refl)
  stopped-IsReported index_error = inr (λ k h. cc, refl)
  stopped-IsReported (other_error t) = inr (λ k h. cc, refl)

  -- The loop in its two ways to end.
  abbrev pub Ends :
      List Step → String → Dict String → World → Outcome String × (Dict String × World) → Type 0
  Ends steps before context w out =
      ((result : String) × (last : Dict String) × (w' : World) × Runs steps before context w result
          last w'
        × (out ≡ (ok result, (last, w'))))
      ⊎ ((s : Stops steps before context w) × (answer : Outcome String) × (out
            ≡ (answer, (s.reached, s.world)))
          × IsReported s.reason answer)

  run_steps-Ends :
      (steps : List Step) (before : String) (context : Dict String) (w : World)
      → Ends steps before context w (run_steps format r steps before (context, w))
  unfolding run_steps
  run_steps-Ends [] before context w = inl (before, context, w, done before context w, refl)
  run_steps-Ends (step ∷ steps) before context w =
      elim (Outcome-cases (format step.input_template context)) [
        | inr (e, f) ↦ inr (
          record {
            earlier = [];
            failing = step;
            later = steps;
            whole = refl;
            result = before;
            reached = context;
            world = w;
            runs = done before context w;
            reason = e;
            fails = f;
          },
          stopped format e,
          rw (run_steps, f) refl,
          stopped-IsReported e,
        )
        | inl (input, f) ↦
            let (answer, w', e) = execute_tool_returns r step.tool_name input w in
            let context' = Dict.put step.output_key answer context in
            elim (run_steps-Ends steps answer context' w') [
              | inl (result, last, w'', runs, eq) ↦ inl (
                result,
                last,
                w'',
                next step steps before input answer result context last w w' w'' f e runs,
                rw (run_steps, f, e, e) eq,
              )
              | inr (s, ans, eq, told) ↦ inr (
                record {
                  earlier = step ∷ s.earlier;
                  failing = s.failing;
                  later = s.later;
                  whole = ap (◌∷◌ step) s.whole;
                  result = s.result;
                  reached = s.reached;
                  world = s.world;
                  runs =
                      next step s.earlier before input answer s.result context s.reached w w'
                        s.world f e s.runs;
                  reason = s.reason;
                  fails = s.fails;
                },
                ans,
                rw (run_steps, f, e, e) eq,
                told,
              )
            ]
      ]

  -- A chain with steps either runs them all and returns the last answer, or stops at the first step
  -- whose template cannot be filled: no later tool runs, the answers so far stay in the context, and
  -- a missing variable becomes the text that names it where any other exception leaves `execute`.
  pub execute-Ends :
      (c : ToolChain) (step : Step) (steps : List Step) (input : String) (context : Dict String)
      (w : World)
      → c.steps ≡ step ∷ steps
      → Ends
          (step ∷ steps)
          input
          (Dict.put "input" input context)
          w
          (execute format c r input (some context) w)
  unfolding execute
  execute-Ends c step steps input context w e =
      rw (execute, e) (run_steps-Ends (step ∷ steps) input (Dict.put "input" input context) w)

  keys_of : List Step → List String
  keys_of = map (λ s. s.output_key)

  Runs-keeps :
      {steps : List Step} {before result : String} {context last : Dict String} {w w' : World}
      → Runs steps before context w result last w'
      → (k : String) → contains k (keys_of steps) ≡ false
      → Dict.get k last ≡ Dict.get k context
  unfolding keys_of contains
  Runs-keeps (done result context w) k h = refl
  Runs-keeps (next step steps before input answer result context last w w' w'' f e runs) k h =
      Runs-keeps runs k (ground arith)
      ∙ Dict.get-put step.output_key k answer context
      ∙ ground arith

  earlier-keys :
      (k : String) (earlier : List Step) (step : Step) (later : List Step)
      → contains k (keys_of (earlier ++ step ∷ later)) ≡ false
      → contains k (keys_of earlier) ≡ false
  unfolding keys_of contains
  earlier-keys k [] step later h = refl
  earlier-keys k (s ∷ earlier) step later h = ground (arith, earlier-keys k earlier step later)

  Ends-keeps :
      (steps : List Step) (before : String) (context : Dict String) (w : World)
      (out : Outcome String × (Dict String × World)) (k : String)
      → Ends steps before context w out
      → contains k (keys_of steps) ≡ false
      → Dict.get k out.1.0 ≡ Dict.get k context
  Ends-keeps steps before context w out k (inl (result, last, w', runs, e)) h =
      ap (λ o. Dict.get k o.1.0) e ∙ Runs-keeps runs k h
  Ends-keeps steps before context w out k (inr (s, answer, e, told)) h =
      ap (λ o. Dict.get k o.1.0) e
      ∙ Runs-keeps s.runs k (
          earlier-keys k s.earlier s.failing s.later
            (ap (λ l. contains k (keys_of l)) (sym s.whole) ∙ h))

  -- However a chain ends, it leaves alone every entry of the caller's context but "input" and the
  -- output keys of its steps.
  pub execute_keeps_others :
      (c : ToolChain) (input k : String) (context : Dict String) (w : World)
      → ("input" == k) ≡ false
      → contains k (map (λ (s : Step). s.output_key) c.steps) ≡ false
      → Dict.get k (execute format c r input (some context) w).1.0 ≡ Dict.get k context
  unfolding execute keys_of
  execute_keeps_others c input k context w other fresh = by_steps c.steps fresh
    where
      by_steps :
          (steps : List Step)
          → contains k (keys_of steps) ≡ false
          → Dict.get k
              (elim steps as (λ _. Outcome String × (Dict String × World)) [
                | [] ↦ (ok "❌ 工具链为空，无法执行", (context, w))
                | step ∷ rest ↦
                    run_steps format r (step ∷ rest) input (Dict.put "input" input context, w)
              ]).1.0
            ≡ Dict.get k context
      by_steps [] h = refl
      by_steps (step ∷ rest) h =
          Ends-keeps (step ∷ rest) input (Dict.put "input" input context) w _ k
            (run_steps-Ends (step ∷ rest) input (Dict.put "input" input context) w) h
          ∙ Dict.get-put "input" k input context
          ∙ rw other refl
