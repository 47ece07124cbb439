-- ===== src/Context/Gather/Grows.antt =====
-- `_gather` of context/builder.py only adds packets, and the instructions come first.
use mathlib.Core.List.{append_assoc, append-nil}
use tokenlyfy_v.Support.{
  Option, none, some, List, [], ◌∷◌, ◌++◌, Bool, true, false, ◌≡◌, refl, sym, ap, ◌∙◌,
}
use tokenlyfy_v.Support.Text.{Text}
use tokenlyfy_v.Support.Dict
use tokenlyfy_v.Support.Dict.{Dict}
use tokenlyfy_v.Support.Outcome.{Outcome, ok, raise}
use tokenlyfy_v.Support.Action.{Action, continue, modify, ◌>>=◌}
use tokenlyfy_v.Context.{
  Platform, Value, text, Message, MemorySearch, RagSearch, is_empty, ContextPacket, ContextBuilder,
  count_tokens, post_init, has_type, is_system,
}
use tokenlyfy_v.Context.Gather.{
  state_search, related_search, Gathering, append_packet, append_if, asking, guarded, gather_memory,
  gather_rag, gather_history, if_given, gather,
}

module _ ⦃platform : Platform⦄ where
  open platform use {World}

  -- The packets stay, and others come behind them.
  abbrev pub Grows : {A : Type 0} → Action Gathering A → Type 0
  Grows m = (g : Gathering) → (new : List ContextPacket) × ((m g).1.packets ≡ g.packets ++ new)

  Grows-append_if :
      (test : Bool) (content : Text) (metadata : Dict Value)
      → Grows (append_if test content metadata)
  unfolding append_if append_packet modify
  Grows-append_if true content metadata g = (_, refl)
  Grows-append_if false content metadata g = ([], sym (append-nil g.packets))

  Grows-asking : (m : Action World Text) → Grows (asking m)
  unfolding asking
  Grows-asking m g = ([], sym (append-nil g.packets))

  Grows->>= :
      {A B : Type 0} (m : Action Gathering A) (f : A → Action Gathering B)
      → Grows m
      → ((a : A) → Grows (f a))
      → Grows (m >>= f)
  unfolding ◌>>=◌
  Grows->>= {A} {B} m f h k g = by_outcome (m g) (h g)
    where
      by_outcome :
          (r : Outcome A × Gathering)
          → (new : List ContextPacket) × (r.1.packets ≡ g.packets ++ new)
          → (new : List ContextPacket) × ((continue r.0 f r.1).1.packets ≡ g.packets ++ new)
      by_outcome (ok a, g') (new, e) =
          let (more, e') = k a g' in
          (new ++ more, e' ∙ ap (λ xs. xs ++ more) e ∙ append_assoc g.packets new more)
      by_outcome (raise x, g') (new, e) = (new, e)

  Grows-guarded : (m : Action Gathering (Unit {0})) → Grows m → Grows (guarded m)
  unfolding guarded
  Grows-guarded m h g = h g

  Grows-gather_memory :
      (execute : MemorySearch → Action World Text) (user_query : Text)
      → Grows (gather_memory execute user_query)
  unfolding gather_memory
  Grows-gather_memory execute user_query = Grows->>= _ _ (Grows-asking (execute state_search)) (λ r.
      Grows->>= _ _ (Grows-append_if _ _ _) (λ u.
        Grows->>= _ _ (Grows-asking (execute (related_search user_query)))
          (λ s. Grows-append_if _ _ _)))

  Grows-gather_rag :
      (run : RagSearch → Action World Text) (user_query : Text) → Grows (gather_rag run user_query)
  unfolding gather_rag
  Grows-gather_rag run user_query =
      Grows->>= _ _ (Grows-asking (run (record { query = user_query; limit = 5 })))
        (λ r. Grows-append_if _ _ _)

  Grows-gather_history : (history : List Message) → Grows (gather_history history)
  unfolding gather_history
  Grows-gather_history history = Grows-append_if _ _ _

  Grows-if_given :
      {A : Type 0} (tool : Option A) (use_tool : A → Action Gathering (Unit {0}))
      → ((a : A) → Grows (use_tool a))
      → Grows (if_given tool use_tool)
  unfolding if_given modify
  Grows-if_given none use_tool h g = ([], sym (append-nil g.packets))
  Grows-if_given (some a) use_tool h g = h a g

  Grows-guarded_tool :
      {A : Type 0} (tool : Option A) (use_tool : A → Action Gathering (Unit {0}))
      → ((a : A) → Grows (use_tool a))
      → Grows (if_given tool (λ a. guarded (use_tool a)))
  Grows-guarded_tool tool use_tool h =
      Grows-if_given tool (λ a. guarded (use_tool a)) (λ a. Grows-guarded (use_tool a) (h a))

  -- What follows the instructions.
  abbrev others :
      ContextBuilder → Text → List Message → List ContextPacket → Action Gathering (Unit {0})
  others builder user_query history additional_packets =
      if_given builder.memory_execute (λ execute. guarded (gather_memory execute user_query))
      >>= λ _. if_given builder.rag_run (λ run. guarded (gather_rag run user_query)) >>= λ _.
          gather_history history >>= λ _.
          modify (λ g. record g { packets = g.packets ++ additional_packets })

  Grows-others :
      (builder : ContextBuilder) (user_query : Text) (history : List Message)
      (additional_packets : List ContextPacket)
      → Grows (others builder user_query history additional_packets)
  unfolding modify
  Grows-others builder user_query history additional_packets =
      Grows->>= _ _
        (Grows-guarded_tool builder.memory_execute (λ execute. gather_memory execute user_query)
          (λ execute. Grows-gather_memory execute user_query))
        (λ u.
          Grows->>= _ _
            (Grows-guarded_tool builder.rag_run (λ run. gather_rag run user_query)
              (λ run. Grows-gather_rag run user_query))
            (λ u.
              Grows->>= _ _ (Grows-gather_history history) (λ u. λ g. (additional_packets, refl))))

  -- Whatever the tools return or raise, the packet of the instructions comes first.
  pub gather-first :
      (builder : ContextBuilder) (user_query : Text) (history : List Message)
      (system_instructions : Text) (additional_packets : List ContextPacket) (w : World)
      → is_empty system_instructions ≡ false
      → (p : ContextPacket) × (rest : List ContextPacket) × ((gather builder user_query history
            system_instructions additional_packets
            (record { packets = []; world = w })).1.packets
          ≡ p ∷ rest)
        × (p.content ≡ system_instructions)
        × (is_system p ≡ true)
        × (p.token_count ≡ count_tokens system_instructions)
  unfolding gather append_if append_packet modify ◌>>=◌ post_init has_type Dict.get
  gather-first builder user_query history system_instructions additional_packets w given =
      let start : Gathering = record { packets = []; world = w } in
      let (_, one) = append_packet system_instructions (("type", text "instructions") ∷ []) start in
      let run : gather builder user_query history system_instructions additional_packets start
          ≡ others builder user_query history additional_packets one =
        rw given refl in
      let (new, e) = Grows-others builder user_query history additional_packets one in
      (_, new, ap (λ (r : Outcome (Unit {0}) × Gathering). r.1.packets) run ∙ e, refl, refl, refl)
