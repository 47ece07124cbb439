-- ===== src/Tools/Registry.antt =====
-- `ToolRegistry` of tools/registry.py. What it prints is left out.
pub mod Directory
pub mod Execution
mod Tests
use tokenlyfy_v.Support.{
  ℕ, String, Option, none, some, List, [], ◌∷◌, ◌++◌, Bool, true, false, ◌&&◌, if◌then◌else◌, map,
}
use tokenlyfy_v.Support.Dict
use tokenlyfy_v.Support.Dict.{Dict}
use tokenlyfy_v.Support.Message.{concat}
use tokenlyfy_v.Support.Outcome.{Outcome, ok, raise, Exception}
use tokenlyfy_v.Support.Action.{Action}

-- The class `Tool` as the registry uses it, over a world that the tools read and change.
pub record ToolClass : Type 1 where
  pub Tool : Type 0
  pub World : Type 0
  pub name : Tool → String
  pub description : Tool → String
  pub expandable : Tool → Bool
  pub get_expanded_tools : Tool → Option (List Tool)
  -- `tool.run({"input": text})`
  pub run : Tool → String → Action World String
  -- `str(e)` of an exception, `str(n)` of a number
  pub describe : Exception → String
  pub number : ℕ → String

module _ ⦃kit : ToolClass⦄ where
  open kit use {Tool, World, name, description, expandable, get_expanded_tools, run, describe}

  pub record FunctionInfo : Type 0 where
    pub description : String
    pub func : String → Action World String

  pub record ToolRegistry : Type 0 where
    pub tools : Dict Tool
    pub functions : Dict FunctionInfo

  abbrev pub new_registry : ToolRegistry
  new_registry = record { tools = []; functions = [] }

  -- `self._tools[tool.name] = tool` for each tool of the list
  unfoldable pub put_tools : List Tool → Dict Tool → Dict Tool
  put_tools [] d = d
  put_tools (t ∷ ts) d = put_tools ts (Dict.put (name t) t d)

  -- The tools that one registration stores: the expanded ones, where there are any.
  unfoldable pub stored_tools : Tool → Bool → List Tool
  stored_tools t auto_expand =
      if auto_expand && expandable t
      then elim (get_expanded_tools t) [ none ↦ t ∷ [] | some [] ↦ t ∷ [] | some (s ∷ ss) ↦ s ∷ ss ]
      else t ∷ []

  unfoldable pub register_tool : ToolRegistry → Tool → Bool → ToolRegistry
  register_tool r t auto_expand = record r {
    tools = put_tools (stored_tools t auto_expand) r.tools;
  }

  unfoldable pub register_function :
      ToolRegistry → String → String → (String → Action World String) → ToolRegistry
  register_function r n text f = record r {
    functions = Dict.put n (record { description = text; func = f }) r.functions;
  }

  unfoldable pub unregister : ToolRegistry → String → ToolRegistry
  unregister r n =
      if Dict.has n r.tools
      then record r { tools = Dict.delete n r.tools }
      else if Dict.has n r.functions
      then record r { functions = Dict.delete n r.functions }
      else r

  unfoldable pub get_tool : ToolRegistry → String → Option Tool
  get_tool r n = Dict.get n r.tools

  unfoldable pub get_function : ToolRegistry → String → Option (String → Action World String)
  get_function r n = elim (Dict.get n r.functions) [ none ↦ none | some info ↦ some info.func ]

  -- `try: return call(...)` with the message of the handler
  unfoldable pub guarded : String → Action World String → Action World String
  guarded n call w =
      let (outcome, w') = call w in
      elim outcome [
        | ok result ↦ (ok result, w')
        | raise e ↦ (ok (concat ("错误：执行工具 '" ∷ n ∷ "' 时发生异常: " ∷ describe e ∷ [])), w')
      ]

  unfoldable pub execute_tool : ToolRegistry → String → String → Action World String
  execute_tool r n input_text = elim (Dict.get n r.tools) [
    | some t ↦ guarded n (run t input_text)
    | none ↦ elim (Dict.get n r.functions) [
      | some info ↦ guarded n (info.func input_text)
      | none ↦ λ w. (ok (concat ("错误：未找到名为 '" ∷ n ∷ "' 的工具。" ∷ [])), w)
    ]
  ]

  unfoldable pub joined_by_lines : List String → String
  joined_by_lines [] = ""
  joined_by_lines (p ∷ []) = p
  joined_by_lines (p ∷ q ∷ parts) = concat (p ∷ "\n" ∷ joined_by_lines (q ∷ parts) ∷ [])

  unfoldable pub descriptions : ToolRegistry → List String
  descriptions r =
      map (λ t. concat ("- " ∷ name t ∷ ": " ∷ description t ∷ [])) (Dict.values r.tools)
      ++ map (λ e. concat ("- " ∷ e.0 ∷ ": " ∷ e.1.description ∷ [])) r.functions

  unfoldable pub get_tools_description : ToolRegistry → String
  get_tools_description r = elim (descriptions r) [
    | [] ↦ "暂无可用工具"
    | d ∷ ds ↦ joined_by_lines (d ∷ ds)
  ]

  unfoldable pub list_tools : ToolRegistry → List String
  list_tools r = Dict.keys r.tools ++ Dict.keys r.functions

  unfoldable pub get_all_tools : ToolRegistry → List Tool
  get_all_tools r = Dict.values r.tools

  unfoldable pub clear : ToolRegistry → ToolRegistry
  clear r = new_registry
