-- ===== src/Tools/Registry/Directory.antt =====
-- What the registry of tools/registry.py holds after any calls, as two abstract directories.
use tokenlyfy_v.Support.{
  String, Option, none, some, List, [], ◌∷◌, Bool, ◌&&◌, ◌==◌, ◌≡◌, refl, ap, ◌∙◌, if◌then◌else◌,
  arith, eq_iff, eq_refl,
}
use tokenlyfy_v.Support.Dict
use tokenlyfy_v.Support.Names.{contains, contains-append}
use tokenlyfy_v.Support.Action.{Action}
use tokenlyfy_v.Tools.Registry.{
  ToolClass, FunctionInfo, ToolRegistry, put_tools, stored_tools, register_tool, register_function,
  unregister, list_tools, clear,
}

module _ ⦃kit : ToolClass⦄ where
  open kit use {Tool, World, name}

  -- The calls that change a registry.
  pub data Call : Type 0 where
    register : Tool → Bool → Call
    define : String → String → (String → Action World String) → Call
    drop_name : String → Call
    reset : Call

  unfoldable pub apply : ToolRegistry → Call → ToolRegistry
  apply r (register t auto_expand) = register_tool r t auto_expand
  apply r (define n text f) = register_function r n text f
  apply r (drop_name n) = unregister r n
  apply r reset = clear r

  unfoldable pub after : ToolRegistry → List Call → ToolRegistry
  after r [] = r
  after r (call ∷ calls) = after (apply r call) calls

  -- The abstract view: which tool and which function a name stands for.
  pub record View : Type 0 where
    pub tool : String → Option Tool
    pub function : String → Option FunctionInfo

  -- The last tool of this name, or else what the name stood for.
  unfoldable pub last_named : String → List Tool → Option Tool → Option Tool
  last_named n [] known = known
  last_named n (t ∷ ts) known = last_named n ts (if name t == n then some t else known)

  -- A name that stands for a tool and a function loses the tool only.
  unfoldable pub view_step : View → Call → View
  view_step v (register t auto_expand) = record v {
    tool = λ n. last_named n (stored_tools t auto_expand) (v.tool n);
  }
  view_step v (define m text f) = record v {
    function = λ n. if m == n then some (record { description = text; func = f }) else v.function n;
  }
  view_step v (drop_name m) = record {
    tool = λ n. if m == n then none else v.tool n;
    function = λ n.
        if m == n then elim (v.tool m) [ some t ↦ v.function n | none ↦ none ] else v.function n;
  }
  view_step v reset = record { tool = λ n. none; function = λ n. none }

  unfoldable pub view : View → List Call → View
  view v [] = v
  view v (call ∷ calls) = view (view_step v call) calls

  abbrev pub empty_view : View
  empty_view = record { tool = λ n. none; function = λ n. none }

  abbrev Agrees : ToolRegistry → View → Type 0
  Agrees r v =
      (n : String) → (Dict.get n r.tools ≡ v.tool n) × (Dict.get n r.functions ≡ v.function n)

  get-put_tools :
      (n : String) (ts : List Tool) (d : Dict.Dict Tool)
      → Dict.get n (put_tools ts d) ≡ last_named n ts (Dict.get n d)
  unfolding put_tools last_named
  get-put_tools n [] d = refl
  get-put_tools n (t ∷ ts) d =
      get-put_tools n ts (Dict.put (name t) t d)
      ∙ ap (last_named n ts) (Dict.get-put (name t) n t d)

  pub get-unregister_tools :
      (r : ToolRegistry) (m n : String)
      → Dict.get n (unregister r m).tools ≡ (if m == n then none else Dict.get n r.tools)
  unfolding unregister
  get-unregister_tools r m n =
      ground (arith, Dict.get-delete m n r.tools, Dict.has-eq-is_some m r.tools, eq_iff m n)

  pub get-unregister_functions :
      (r : ToolRegistry) (m n : String)
      → Dict.get n (unregister r m).functions ≡ (
          if m == n
          then elim (Dict.get m r.tools) [ some t ↦ Dict.get n r.functions | none ↦ none ]
          else Dict.get n r.functions)
  unfolding unregister
  get-unregister_functions r m n = ground (
    arith,
    Dict.get-delete m n r.functions,
    Dict.has-eq-is_some m r.tools,
    Dict.has-eq-is_some m r.functions,
    eq_iff m n,
  )

  unregister-Agrees :
      (r : ToolRegistry) (v : View) (m : String)
      → Agrees r v
      → Agrees (unregister r m) (view_step v (drop_name m))
  unfolding view_step
  unregister-Agrees r v m h n = (
    get-unregister_tools r m n ∙ rw (h n).0 refl,
    get-unregister_functions r m n
        ∙ rw (h m).0
            (ap (λ f. if m == n then elim (v.tool m) [ some t ↦ f | none ↦ none ] else f) (h n).1),
  )

  apply-Agrees :
      (r : ToolRegistry) (v : View) (call : Call)
      → Agrees r v
      → Agrees (apply r call) (view_step v call)
  unfolding apply view_step register_tool register_function clear Dict.get
  apply-Agrees r v (register t auto_expand) h n = (
    get-put_tools n (stored_tools t auto_expand) r.tools
        ∙ ap (last_named n (stored_tools t auto_expand)) (h n).0,
    (h n).1,
  )
  apply-Agrees r v (define m text f) h n =
      ((h n).0, Dict.get-put m n _ r.functions ∙ rw (h n).1 refl)
  apply-Agrees r v (drop_name m) h n = unregister-Agrees r v m h n
  apply-Agrees r v reset h n = (refl, refl)

  pub after-Agrees :
      (r : ToolRegistry) (v : View) (calls : List Call)
      → Agrees r v
      → Agrees (after r calls) (view v calls)
  unfolding after view
  after-Agrees r v [] h = h
  after-Agrees r v (call ∷ calls) h =
      after-Agrees (apply r call) (view_step v call) calls (apply-Agrees r v call h)

  -- Once a name is unregistered, it is still listed exactly where it stood for a tool and for a
  -- function: then the function is left.
  pub list_tools-unregister :
      (r : ToolRegistry) (n : String)
      → contains n (list_tools (unregister r n)) ≡ (Dict.has n r.tools && Dict.has n r.functions)
  unfolding list_tools unregister
  list_tools-unregister r n =
      contains-append n (Dict.keys (unregister r n).tools) (Dict.keys (unregister r n).functions)
      ∙ rw (Dict.contains-keys, Dict.contains-keys)
          (ground (arith, Dict.has-delete n n r.tools, Dict.has-delete n n r.functions, eq_refl n))
