-- ===== src/Agents/Reflection/Record.antt =====
-- What a run of agents/reflection_agent.py leaves in the memory.
use tokenlyfy_v.Support.{
  ℕ, zero, suc, ◌+◌, ◌≤◌, String, [], ◌∷◌, ◌++◌, Bool, true, false, length, length-append, ◌*◌,
  Option, none, some, arith,
}
use tokenlyfy_v.Support.Dict.{Dict}
use tokenlyfy_v.Support.Outcome.{Outcome, ok, raise}
use tokenlyfy_v.Support.Action.{Action, return, gets, modify, continue, ◌>>=◌, ◌>>◌}
use tokenlyfy_v.Agents.Reflection.{
  Model, Prompts, ReflectionAgent, add_record, filled, get_llm_response, is_satisfied, iterate,
  add_message, attempt, run,
}

module _ ⦃model : Model⦄ where
  open model use {World, invoke, now, format}

  -- However the action ends, it adds at most so many records.
  abbrev Grows {κ} : {A : Type κ} → Action ReflectionAgent A → ℕ → Type 0
  Grows m n = (a : ReflectionAgent) → length (m a).1.records ≤ length a.records + n

  Grows->>= {κ μ} :
      {A : Type κ} {B : Type μ} (m : Action ReflectionAgent A) (f : A → Action ReflectionAgent B)
      (n k : ℕ)
      → Grows m n
      → ((x : A) → Grows (f x) k)
      → Grows (m >>= f) (n + k)
  unfolding ◌>>=◌
  Grows->>= {A = A} m f n k h g a = by_outcome (m a) (h a)
    where
      by_outcome :
          (r : Outcome A × ReflectionAgent)
          → length r.1.records ≤ length a.records + n
          → length (continue r.0 f r.1).1.records ≤ length a.records + (n + k)
      by_outcome (ok x, b) p = omega (arith, g x b)
      by_outcome (raise e, b) p = omega arith

  filled-Grows : (template : String) (values : Dict String) → Grows (filled template values) 0
  unfolding filled
  filled-Grows template values a = omega arith

  get_llm_response-Grows : (prompt : String) → Grows (get_llm_response prompt) 0
  unfolding get_llm_response
  get_llm_response-Grows prompt a = by_outcome (invoke prompt a.world).0
    where
      by_outcome :
          (o : Outcome (Option String))
          → length
              (elim o as (λ _. Outcome String × ReflectionAgent) [
                | raise e ↦ (raise e, record a { world = (invoke prompt a.world).1 })
                | ok reply ↦ (
                  ok (elim reply [ none ↦ "" | some text ↦ text ]),
                  record a { world = (invoke prompt a.world).1 },
                )
              ]).1.records
            ≤ length a.records + 0
      by_outcome (ok reply) = omega arith
      by_outcome (raise e) = omega arith

  add_record-Grows : (type content : String) → Grows (add_record type content) 1
  unfolding add_record modify
  add_record-Grows type content a =
      omega (arith, length-append a.records (record { type = type; content = content } ∷ []))

  return-Grows {κ} : {A : Type κ} (x : A) (n : ℕ) → Grows (return x) n
  unfolding return
  return-Grows x n a = omega arith

  gets-Grows : (f : ReflectionAgent → String) → Grows (gets f) 0
  unfolding gets
  gets-Grows f a = omega arith

  -- The second half of a round, and the rounds after it.
  refine-Grows :
      (satisfied : Bool) (input_text last_result feedback : String) (prompts : Prompts)
      (rest : Action ReflectionAgent (Unit {0})) (n : ℕ)
      → Grows rest n
      → Grows
          (elim satisfied as (λ _. Action ReflectionAgent (Unit {0})) [
            | true ↦ return tt
            | false ↦ (do
              refine_prompt ← filled prompts.refine (
                  ("task", input_text)
                  ∷ ("last_attempt", last_result)
                  ∷ ("feedback", feedback)
                  ∷ [])
              refined_result ← get_llm_response refine_prompt
              add_record "execution" refined_result
              rest)
          ])
          (0 + (0 + (1 + n)))
  refine-Grows true input_text last_result feedback prompts rest n h = return-Grows tt _
  refine-Grows false input_text last_result feedback prompts rest n h =
      Grows->>= _ _ 0 _ (filled-Grows prompts.refine _) λ p.
        Grows->>= _ _ 0 _ (get_llm_response-Grows p)
          λ r. Grows->>= _ _ 1 n (add_record-Grows "execution" r) (λ _. h)

  weaken {κ} : {A : Type κ} (m : Action ReflectionAgent A) (n k : ℕ) → n ≤ k → Grows m n → Grows m k
  weaken m n k le h a = omega (arith, h a)

  iterate-Grows :
      (rounds : ℕ) (input_text : String) (prompts : Prompts)
      → Grows (iterate rounds input_text prompts) (2 * rounds)
  unfolding iterate
  iterate-Grows zero input_text prompts = return-Grows tt _
  iterate-Grows (suc rounds) input_text prompts =
      let rest = iterate rounds input_text prompts in
      weaken (iterate (suc rounds) input_text prompts)
        (0 + (0 + (0 + (1 + (0 + (0 + (1 + 2 * rounds))))))) _ (omega arith)
        (Grows->>= _ _ 0 _ (gets-Grows _) λ last_result.
          Grows->>= _ _ 0 _ (filled-Grows prompts.reflect _) λ p.
            Grows->>= _ _ 0 _ (get_llm_response-Grows p) λ feedback.
              Grows->>= _ _ 1 _ (add_record-Grows "reflection" feedback) λ _.
                refine-Grows (is_satisfied feedback) input_text last_result feedback prompts rest
                  (2 * rounds) (iterate-Grows rounds input_text prompts))

  add_message-Grows : (content role : String) → Grows (add_message content role) 0
  unfolding add_message
  add_message-Grows content role a = by_outcome (now a.world).0
    where
      by_outcome :
          (o : Outcome String)
          → length
              (elim o as (λ _. Outcome (Unit {0}) × ReflectionAgent) [
                | raise e ↦ (raise e, record a { world = (now a.world).1 })
                | ok t ↦ (
                  ok tt,
                  record a {
                    world = (now a.world).1;
                    history =
                        a.history ++ record { content = content; role = role; timestamp = t } ∷ [];
                  },
                )
              ]).1.records
            ≤ length a.records + 0
      by_outcome (ok t) = omega arith
      by_outcome (raise e) = omega arith

  attempt-Grows :
      (rounds : ℕ) (prompts : Prompts) (input_text : String)
      → Grows
          (attempt rounds prompts input_text)
          (0 + (0 + (1 + (2 * rounds + (0 + (0 + (0 + 0)))))))
  unfolding attempt
  attempt-Grows rounds prompts input_text = Grows->>= _ _ 0 _ (filled-Grows prompts.initial _) λ p.
      Grows->>= _ _ 0 _ (get_llm_response-Grows p) λ r.
        Grows->>= _ _ 1 _ (add_record-Grows "execution" r) λ _.
          Grows->>= _ _ (2 * rounds) _ (iterate-Grows rounds input_text prompts) λ _.
            Grows->>= _ _ 0 _ (gets-Grows _) λ final.
              Grows->>= _ _ 0 _ (add_message-Grows input_text "user") λ _.
                Grows->>= _ _ 0 0 (add_message-Grows final "assistant") (λ _. return-Grows final 0)

  -- However a run ends, and whatever the model answers, the memory then holds at most one execution
  -- for the first attempt and two records for each iteration: what earlier runs left is gone.
  pub run_records :
      (input_text : String) (a : ReflectionAgent)
      → length (run input_text a).1.records ≤ 1 + 2 * a.max_iterations
  unfolding run
  run_records input_text a =
      omega (arith, attempt-Grows a.max_iterations a.prompts input_text (record a { records = [] }))
