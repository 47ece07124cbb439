-- ===== src/Agents/Reflection.antt =====
-- `Memory` and `ReflectionAgent` of agents/reflection_agent.py, on `Agent` of core/agent.py and
-- `Message` of core/message.py. What they print is left out.
pub mod Record
mod Tests
use mathlib.Core.List.{reverse}
use tokenlyfy_v.Support.{
  ℕ, zero, suc, String, Option, none, some, List, [], ◌∷◌, ◌++◌, Bool, true, false, ◌||◌, ◌==◌,
  if◌then◌else◌,
}
use tokenlyfy_v.Support.Dict.{Dict}
use tokenlyfy_v.Support.Outcome.{Outcome, ok, raise}
use tokenlyfy_v.Support.Action.{Action, return, gets, modify, ◌>>=◌, ◌>>◌}

pub record Message : Type 0 where
  pub content : String
  pub role : String
  pub timestamp : String

-- What the agent takes from outside: the language model and the clock over a world, `str.format`,
-- `in` and `lower` of strings.
pub record Model : Type 1 where
  pub World : Type 0
  pub invoke : String → Action World (Option String)
  pub now : Action World String
  pub format : String → Dict String → Outcome String
  pub is_in : String → String → Bool
  pub lower : String → String

pub record MemoryRecord : Type 0 where
  pub type : String
  pub content : String

pub record Prompts : Type 0 where
  pub initial : String
  pub reflect : String
  pub refine : String

module _ ⦃model : Model⦄ where
  open model use {World, invoke, now, format, is_in, lower}

  pub record ReflectionAgent : Type 0 where
    pub max_iterations : ℕ
    pub prompts : Prompts
    pub records : List MemoryRecord
    pub history : List Message
    pub world : World

  unfoldable pub add_record : String → String → Action ReflectionAgent (Unit {0})
  add_record record_type content = modify (λ a. record a {
    records = a.records ++ record { type = record_type; content = content } ∷ [];
  })

  -- The content of the first execution.
  unfoldable pub first_execution : List MemoryRecord → String
  first_execution [] = ""
  first_execution (r ∷ records) =
      if r.type == "execution" then r.content else first_execution records

  unfoldable pub get_last_execution : List MemoryRecord → String
  get_last_execution records = first_execution (reverse records)

  -- `self.prompts[...].format(...)`
  unfoldable pub filled : String → Dict String → Action ReflectionAgent String
  filled template values a = (format template values, a)

  -- `self.llm.invoke(messages) or ""`
  unfoldable pub get_llm_response : String → Action ReflectionAgent String
  get_llm_response prompt a =
      let (outcome, w) = invoke prompt a.world in
      elim outcome [
        | raise e ↦ (raise e, record a { world = w })
        | ok reply ↦ (ok (elim reply [ none ↦ "" | some text ↦ text ]), record a { world = w })
      ]

  unfoldable pub is_satisfied : String → Bool
  is_satisfied feedback = is_in "无需改进" feedback || is_in "no need for improvement" (lower feedback)

  -- The rounds of reflection and refinement that are left.
  unfoldable pub iterate : ℕ → String → Prompts → Action ReflectionAgent (Unit {0})
  iterate zero input_text prompts = return tt
  iterate (suc rounds) input_text prompts =
      let rest = iterate rounds input_text prompts in
      (do
        last_result ← gets (λ a. get_last_execution a.records)
        reflect_prompt ←
            filled prompts.reflect (("task", input_text) ∷ ("content", last_result) ∷ [])
        feedback ← get_llm_response reflect_prompt
        add_record "reflection" feedback
        elim (is_satisfied feedback) [
          | true ↦ return tt
          | false ↦ (do
            refine_prompt ←
                filled prompts.refine (
                  ("task", input_text)
                  ∷ ("last_attempt", last_result)
                  ∷ ("feedback", feedback)
                  ∷ [])
            refined_result ← get_llm_response refine_prompt
            add_record "execution" refined_result
            rest)
        ])

  -- `Message(content, role)`, stamped by the clock
  unfoldable pub add_message : String → String → Action ReflectionAgent (Unit {0})
  add_message content role a =
      let (outcome, w) = now a.world in
      elim outcome [
        | raise e ↦ (raise e, record a { world = w })
        | ok t ↦ (
          ok tt,
          record a {
            world = w;
            history = a.history ++ record { content = content; role = role; timestamp = t } ∷ [];
          },
        )
      ]

  -- `run` from the first attempt on
  unfoldable pub attempt : ℕ → Prompts → String → Action ReflectionAgent String
  attempt max_iterations prompts input_text = do
    initial_prompt ← filled prompts.initial (("task", input_text) ∷ [])
    initial_result ← get_llm_response initial_prompt
    add_record "execution" initial_result
    iterate max_iterations input_text prompts
    final_result ← gets (λ a. get_last_execution a.records)
    add_message input_text "user"
    add_message final_result "assistant"
    return final_result

  -- The memory is a new one.
  unfoldable pub run : String → Action ReflectionAgent String
  run input_text a = attempt a.max_iterations a.prompts input_text (record a { records = [] })

  unfoldable pub clear_history : Action ReflectionAgent (Unit {0})
  clear_history = modify (λ a. record a { history = [] })

  unfoldable pub get_history : Action ReflectionAgent (List Message)
  get_history = gets (λ a. a.history)
