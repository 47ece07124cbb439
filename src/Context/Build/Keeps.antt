-- ===== src/Context/Build/Keeps.antt =====
-- What the stages of `build` in context/builder.py keep of the system's instructions.
use mathlib.Core.List.{append_assoc, append-nil}
use tokenlyfy_v.Support.{
  ◌+◌, ◌≤◌, List, [], ◌∷◌, ◌++◌, Bool, true, false, ◌≡◌, refl, sym, ap, ◌∙◌, keep, map, leb, arith,
}
use tokenlyfy_v.Support.Text.{Text}
use tokenlyfy_v.Support.Find.{codes}
use tokenlyfy_v.Context.{
  Platform, Message, join, is_empty, ContextPacket, ContextConfig, ContextBuilder, count_tokens,
  get_available_tokens, has_type, is_system,
}
use tokenlyfy_v.Context.Gather.{Gathering, gather}
use tokenlyfy_v.Context.Gather.Grows.{gather-first}
use tokenlyfy_v.Context.Select.{fill, select}
use tokenlyfy_v.Context.Select.Greedy.{rated}
use tokenlyfy_v.Context.Select.Budget.{first, others, select-parts}
use tokenlyfy_v.Context.Structure.{
  section, output_section, role_section, task_section, state_section, evidence_sections,
  context_section, sections, structure,
}
use tokenlyfy_v.Context.Compress.Prefix.{compress-prefix}
use tokenlyfy_v.Context.Build.{build}

module _ ⦃platform : Platform⦄ where
  open platform use {World}

  keep-yes :
      {A : Type 0} (test : A → Bool) (x : A) (xs : List A)
      → test x ≡ true
      → keep test (x ∷ xs) ≡ x ∷ keep test xs
  unfolding keep
  keep-yes test x xs h = rw h refl

  -- Where the instructions alone fit, they are the first packet that is selected.
  select-first :
      (config : ContextConfig) (user_query : Text) (p : ContextPacket) (rest : List ContextPacket)
      (w : World)
      → is_system p ≡ true
      → p.token_count ≤ get_available_tokens config
      → (more : List ContextPacket) × ((select config user_query (p ∷ rest) w).0
          ≡ rated user_query p ∷ more)
  unfolding fill has_type
  select-first config user_query p rest w system fits =
      let p' = rated user_query p in
      let fit : leb (0 + p.token_count) (get_available_tokens config) ≡ true =
        ground (arith, fits) in
      let systems' = keep is_system (map (rated user_query) rest) in
      let front : (first config user_query (p ∷ rest) w).0
          ≡ p' ∷ (fill (get_available_tokens config) (0 + p.token_count) systems').0 =
        ap (λ ps. (fill (get_available_tokens config) 0 ps).0) (keep-yes is_system p' _ system)
        ∙ rw (fill, fit) refl in
      (
        _,
        select-parts config user_query (p ∷ rest) w
            ∙ ap (λ ps. ps ++ (others config user_query (p ∷ rest) w).0) front,
      )

  join-first :
      (separator t : Text) (texts : List Text)
      → (more : Text) × (join separator (t ∷ texts) ≡ t ++ more)
  unfolding join
  join-first separator t [] = ([], sym (append-nil t))
  join-first separator t (s ∷ texts) = (_, append_assoc t separator _)

  -- The instructions stand at the beginning of the text.
  structure-first :
      (p : ContextPacket) (packets : List ContextPacket) (user_query : Text)
      → is_system p ≡ true
      → (more : Text) × (structure (p ∷ packets) user_query
          ≡ codes "[Role & Policies]\n" ++ (p.content ++ more))
  unfolding structure sections section
  structure-first p packets user_query system =
      let title = codes "[Role & Policies]\n" in
      let later : List Text =
        task_section user_query ∷ state_section (p ∷ packets)
        ++ evidence_sections (p ∷ packets)
        ++ context_section (p ∷ packets)
        ++ output_section ∷ [] in
      let (m, e) =
        join-first (codes "\n") p.content
          (map (λ (q : ContextPacket). q.content) (keep is_system packets)) in
      let role : role_section (p ∷ packets) ≡ (title ++ (p.content ++ m)) ∷ [] =
        ap (section title) (keep-yes is_system p packets system) ∙ ap (λ t. (title ++ t) ∷ []) e in
      let (n, e') = join-first (codes "\n\n") (title ++ (p.content ++ m)) later in
      (
        m ++ n,
        ap
              (λ r. join (codes "\n\n") (
                r
                ++ task_section user_query ∷ state_section (p ∷ packets)
                ++ evidence_sections (p ∷ packets)
                ++ context_section (p ∷ packets)
                ++ output_section ∷ []))
              role
            ∙ e'
            ∙ append_assoc title (p.content ++ m) n
            ∙ ap (λ t. title ++ t) (append_assoc p.content m n),
      )

  -- Where the system's instructions fit into the budget alone, the context begins with them, whatever
  -- the tools return or raise and whatever packets are added: what is built is cut from the end of a
  -- text that begins with them.
  pub build-instructions :
      (builder : ContextBuilder) (user_query : Text) (history : List Message)
      (system_instructions : Text) (additional_packets : List ContextPacket) (w : World)
      → is_empty system_instructions ≡ false
      → count_tokens system_instructions ≤ get_available_tokens builder.config
      → (cut : Text) × (more : Text) × ((build builder user_query history system_instructions
              additional_packets w).0
            ++ cut
          ≡ codes "[Role & Policies]\n" ++ (system_instructions ++ more))
  unfolding build has_type
  build-instructions builder user_query history system_instructions additional_packets w given
        fits =
      let start : Gathering = record { packets = []; world = w } in
      let (_, g) = gather builder user_query history system_instructions additional_packets start in
      let (p, rest, all, content, system, size) =
        gather-first builder user_query history system_instructions additional_packets w given in
      let (more, chosen) =
        select-first builder.config user_query p rest g.world system (omega (arith, size, fits)) in
      let (after, text_of) = structure-first (rated user_query p) more user_query system in
      let (cut, whole) =
        compress-prefix builder.config
          (structure (select builder.config user_query g.packets g.world).0 user_query) in
      (
        cut,
        after,
        sym whole
            ∙ ap (λ ps. structure (select builder.config user_query ps g.world).0 user_query) all
            ∙ ap (λ ps. structure ps user_query) chosen
            ∙ text_of
            ∙ ap (λ t. codes "[Role & Policies]\n" ++ (t ++ after)) content,
      )
