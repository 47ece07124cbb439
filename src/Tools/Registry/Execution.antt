-- ===== src/Tools/Registry/Execution.antt =====
-- What `execute_tool` of tools/registry.py answers.
use tokenlyfy_v.Support.{
  String, Option, none, some, List, [], ◌∷◌, ◌≡◌, refl, ◌∙◌, eq_refl, Option-cases, inl, inr,
}
use tokenlyfy_v.Support.Dict
use tokenlyfy_v.Support.Message.{concat}
use tokenlyfy_v.Support.Outcome.{Outcome, ok, raise}
use tokenlyfy_v.Support.Action.{Action}
use tokenlyfy_v.Tools.Registry.{
  ToolClass, FunctionInfo, ToolRegistry, new_registry, guarded, execute_tool, unregister,
}
use tokenlyfy_v.Tools.Registry.Directory.{
  Call, after, view, empty_view, after-Agrees, get-unregister_tools, get-unregister_functions,
}

module _ ⦃kit : ToolClass⦄ where
  open kit use {Tool, World, run, describe}

  -- What a call answers when it ends in this outcome and leaves this world.
  abbrev pub reported : String → Outcome String × World → Outcome String × World
  reported n (ok result, w) = (ok result, w)
  reported n (raise e, w) = (ok (concat ("错误：执行工具 '" ∷ n ∷ "' 时发生异常: " ∷ describe e ∷ [])), w)

  -- The answer for a name that stands for this tool and this function: the tool's, or else the
  -- function's, or else a refusal.
  abbrev pub answer :
      Option Tool → Option FunctionInfo → String → String → World → Outcome String × World
  answer (some t) function n input w = reported n (run t input w)
  answer none (some info) n input w = reported n (info.func input w)
  answer none none n input w = (ok (concat ("错误：未找到名为 '" ∷ n ∷ "' 的工具。" ∷ [])), w)

  guarded-reported :
      (n : String) (call : Action World String) (w : World) → guarded n call w ≡ reported n (call w)
  unfolding guarded
  guarded-reported n call w = by_outcome (call w)
    where
      by_outcome :
          (r : Outcome String × World)
          → (elim r.0 [
            | ok result ↦ (ok result, r.1)
            | raise e ↦ (ok (concat ("错误：执行工具 '" ∷ n ∷ "' 时发生异常: " ∷ describe e ∷ [])), r.1)
          ])
            ≡ reported n r
      by_outcome (ok result, w) = refl
      by_outcome (raise e, w) = refl

  execute_tool-answer :
      (r : ToolRegistry) (n input : String) (w : World)
      → execute_tool r n input w ≡ answer (Dict.get n r.tools) (Dict.get n r.functions) n input w
  unfolding execute_tool
  execute_tool-answer r n input w = elim (Option-cases (Dict.get n r.tools)) [
    | inr (t, e) ↦ rw (execute_tool, e) (guarded-reported n (run t input) w)
    | inl e ↦ elim (Option-cases (Dict.get n r.functions)) [
      | inr (info, e') ↦ rw (execute_tool, e, e') (guarded-reported n (info.func input) w)
      | inl e' ↦ rw (execute_tool, e, e') refl
    ]
  ]

  -- After any calls on a new registry, `execute_tool` answers as the abstract directory does: a tool
  -- goes before a function of its name, an exception becomes a message, and an unknown name changes
  -- nothing.
  pub execute_tool-after :
      (calls : List Call) (n input : String) (w : World)
      → execute_tool (after new_registry calls) n input w
        ≡ answer ((view empty_view calls).tool n) ((view empty_view calls).function n) n input w
  unfolding Dict.get
  execute_tool-after calls n input w =
      let agrees = after-Agrees new_registry empty_view calls (λ j. (refl, refl)) n in
      execute_tool-answer (after new_registry calls) n input w ∙ rw (agrees.0, agrees.1) refl

  reported_returns :
      (n : String) (r : Outcome String × World)
      → (result : String) × (w' : World) × (reported n r ≡ (ok result, w'))
  reported_returns n (ok result, w) = (result, w, refl)
  reported_returns n (raise e, w) = (_, w, refl)

  answer_returns :
      (t : Option Tool) (f : Option FunctionInfo) (n input : String) (w : World)
      → (result : String) × (w' : World) × (answer t f n input w ≡ (ok result, w'))
  answer_returns (some t) f n input w = reported_returns n (run t input w)
  answer_returns none (some info) n input w = reported_returns n (info.func input w)
  answer_returns none none n input w = (_, w, refl)

  -- `execute_tool` never raises, whatever is registered and whatever the tools raise.
  pub execute_tool_returns :
      (r : ToolRegistry) (n input : String) (w : World)
      → (result : String) × (w' : World) × (execute_tool r n input w ≡ (ok result, w'))
  execute_tool_returns r n input w =
      let (result, w', e) =
        answer_returns (Dict.get n r.tools) (Dict.get n r.functions) n input w in
      (result, w', execute_tool-answer r n input w ∙ e)

  -- An unregistered name that stands for a tool and for a function runs the function from then on.
  pub unregister_reveals :
      (r : ToolRegistry) (n input : String) (w : World) (t : Tool) (info : FunctionInfo)
      → Dict.get n r.tools ≡ some t
      → Dict.get n r.functions ≡ some info
      → execute_tool (unregister r n) n input w ≡ reported n (info.func input w)
  unregister_reveals r n input w t info e e' =
      execute_tool-answer (unregister r n) n input w
      ∙ rw (get-unregister_tools r n n, get-unregister_functions r n n, e, e', eq_refl n) refl
