-- ===== src/Tools/Chain/Manager.antt =====
-- `ToolChainManager` of tools/chain.py.
use tokenlyfy_v.Support.{String, Option, ◌==◌, ◌≡◌, refl, if◌then◌else◌, Bool-cases, inl, inr}
use tokenlyfy_v.Support.Dict
use tokenlyfy_v.Support.Dict.{Dict}
use tokenlyfy_v.Support.Outcome.{Outcome}
use tokenlyfy_v.Tools.Registry.{ToolClass, ToolRegistry}
use tokenlyfy_v.Tools.Chain.{ToolChain, execute, register_chain, execute_chain}

module _ ⦃kit : ToolClass⦄ (format : String → Dict String → Outcome String) where
  open kit use {World}

  -- A chain that was registered runs under its name, in place of an older chain of that name; all
  -- other names run what they ran before.
  pub execute_chain-register_chain :
      (chains : Dict ToolChain) (c : ToolChain) (r : ToolRegistry) (n input : String)
      (context : Option (Dict String)) (w : World)
      → execute_chain format (register_chain chains c) r n input context w ≡ (
          if c.name == n
          then execute format c r input context w
          else execute_chain format chains r n input context w)
  unfolding execute_chain register_chain
  execute_chain-register_chain chains c r n input context w = elim (Bool-cases (c.name == n)) [
    | inl e ↦ rw (execute_chain, Dict.get-put c.name n c chains, e) refl
    | inr e ↦ rw (execute_chain, Dict.get-put c.name n c chains, e) refl
  ]
