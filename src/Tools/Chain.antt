-- ===== src/Tools/Chain.antt =====
-- `ToolChain` and `ToolChainManager` of tools/chain.py. What they print is left out.
pub mod Runs
pub mod Manager
mod Tests
use tokenlyfy_v.Support.{
  ℕ, String, Option, none, some, List, [], ◌∷◌, ◌++◌, Bool, true, false, ◌==◌, if◌then◌else◌, map,
  length,
}
use tokenlyfy_v.Support.Dict
use tokenlyfy_v.Support.Dict.{Dict}
use tokenlyfy_v.Support.Message.{concat}
use tokenlyfy_v.Support.Outcome.{Outcome, ok, raise, key_error, Exception}
use tokenlyfy_v.Support.Action.{Action}
use tokenlyfy_v.Tools.Registry.{ToolClass, ToolRegistry, execute_tool}

pub record Step : Type 0 where
  pub tool_name : String
  pub input_template : String
  pub output_key : String

pub record ToolChain : Type 0 where
  pub name : String
  pub description : String
  pub steps : List Step

abbrev pub new_chain : String → String → ToolChain
new_chain name description = record { name = name; description = description; steps = [] }

-- What `get_chain_info` returns.
pub record ChainInfo : Type 0 where
  pub name : String
  pub description : String
  pub steps : ℕ
  pub step_details : List Step

module _ ⦃kit : ToolClass⦄ where
  open kit use {World, describe, number}

  -- `output_key or f"step_{len(self.steps)}_result"`
  unfoldable pub key_or : Option String → ℕ → String
  key_or none n = concat ("step_" ∷ number n ∷ "_result" ∷ [])
  key_or (some k) n = if k == "" then concat ("step_" ∷ number n ∷ "_result" ∷ []) else k

  unfoldable pub add_step : ToolChain → String → String → Option String → ToolChain
  add_step c tool_name input_template output_key = record c {
    steps =
        c.steps
        ++ record {
          tool_name = tool_name;
          input_template = input_template;
          output_key = key_or output_key (length c.steps);
        }
          ∷ [];
  }

  -- `format` is `str.format(**context)`.
  module _ (format : String → Dict String → Outcome String) where
    abbrev pub template_failed : Exception → String
    template_failed e = concat ("❌ 模板变量替换失败: " ∷ describe e ∷ [])

    abbrev pub tool_failed : String → Exception → String
    tool_failed tool_name e = concat ("❌ 工具 '" ∷ tool_name ∷ "' 执行失败: " ∷ describe e ∷ [])

    -- How the loop leaves when a template raises: only a missing variable is caught.
    abbrev pub stopped : Exception → Outcome String
    stopped (key_error k) = ok (template_failed (key_error k))
    stopped e = raise e

    -- The loop over the steps, on the context and the world.
    unfoldable pub run_steps :
        ToolRegistry → List Step → String → Action (Dict String × World) String
    run_steps r [] final_result s = (ok final_result, s)
    run_steps r (step ∷ steps) final_result (context, w) =
        elim (format step.input_template context) [
          | raise e ↦ (stopped e, (context, w))
          | ok actual_input ↦
              let (outcome, w') = execute_tool r step.tool_name actual_input w in
              elim outcome [
                | raise e ↦ (ok (tool_failed step.tool_name e), (context, w'))
                | ok result ↦ run_steps r steps result (Dict.put step.output_key result context, w')
              ]
        ]

    -- The context that comes back is the given one, which `execute` writes to, or the new one.
    unfoldable pub execute :
        ToolChain
        → ToolRegistry
        → String
        → Option (Dict String)
        → World
        → Outcome String × (Dict String × World)
    execute c r input_data context w =
        let given : Dict String = elim context [ none ↦ [] | some d ↦ d ] in
        elim c.steps [
          | [] ↦ (ok "❌ 工具链为空，无法执行", (given, w))
          | step ∷ steps ↦
              run_steps r (step ∷ steps) input_data (Dict.put "input" input_data given, w)
        ]

    unfoldable pub execute_chain :
        Dict ToolChain
        → ToolRegistry
        → String
        → String
        → Option (Dict String)
        → World
        → Outcome String × (Dict String × World)
    execute_chain chains r chain_name input_data context w = elim (Dict.get chain_name chains) [
      | none ↦ (
        ok (concat ("❌ 工具链 '" ∷ chain_name ∷ "' 不存在" ∷ [])),
        ((elim context [ none ↦ [] | some d ↦ d ]), w),
      )
      | some c ↦ execute c r input_data context w
    ]

-- `ToolChainManager`, whose chains are a dictionary beside its registry
unfoldable pub register_chain : Dict ToolChain → ToolChain → Dict ToolChain
register_chain chains c = Dict.put c.name c chains

unfoldable pub list_chains : Dict ToolChain → List String
list_chains chains = Dict.keys chains

unfoldable pub get_chain_info : Dict ToolChain → String → Option ChainInfo
get_chain_info chains chain_name = elim (Dict.get chain_name chains) [
  | none ↦ none
  | some c ↦ some (record {
    name = c.name;
    description = c.description;
    steps = length c.steps;
    step_details = c.steps;
  })
]

module _ ⦃kit : ToolClass⦄ where
  abbrev pub create_research_chain : ToolChain
  create_research_chain =
      add_step
        (add_step (new_chain "research_and_calculate" "搜索信息并进行相关计算") "search" "{input}"
          (some "search_result"))
        "my_calculator" "2 + 2" (some "calc_result")

  abbrev pub create_simple_chain : ToolChain
  create_simple_chain =
      add_step (new_chain "simple_demo" "简单的工具链演示") "my_calculator" "{input}" (some "result")
