-- ===== src/Context/Select/Budget.antt =====
-- `_select` of context/builder.py against its budget.
use mathlib.Core.List.Memᴰ
use mathlib.Core.List.{Memᴰ, append-nil}
use mathlib.Core.Path.{subst}
use tokenlyfy_v.Support.{
  ℕ, ◌+◌, ◌≤◌, ◌<◌, ◌⊎◌, inl, inr, List, ◌++◌, true, ◌≡◌, sym, ap, ◌∙◌, keep, map, Bool-cases,
  sum_by-append, mem-keep_of_mem, mem_of_mem-keep, keep-append, keep_all, keep_none, arith,
}
use tokenlyfy_v.Support.Text.{Text}
use tokenlyfy_v.Context.{
  Platform, ContextPacket, ContextConfig, get_available_tokens, has_type, is_system,
}
use tokenlyfy_v.Context.Select.{scored, fill, select}
use tokenlyfy_v.Context.Select.Greedy.{
  tokens, rated, IsEligible, fill-tokens, fill_fits, fill-mem, fill_maximal, scored-packets,
  candidates, candidates_from, candidates_into,
}

module _ ⦃platform : Platform⦄ where
  open platform use {World, at_least}

  module _ (config : ContextConfig) (user_query : Text) (packets : List ContextPacket)
      (w : World) where
    abbrev chosen : List ContextPacket
    chosen = (select config user_query packets w).0

    abbrev pub packets' : List ContextPacket
    packets' = map (rated user_query) packets

    abbrev pub systems : List ContextPacket
    systems = keep is_system packets'

    abbrev pub first : List ContextPacket × ℕ
    first = fill (get_available_tokens config) 0 systems

    abbrev pub eligible : List ContextPacket
    eligible = candidates config (scored packets' w).0

    abbrev pub others : List ContextPacket × ℕ
    others = fill (get_available_tokens config) first.1 eligible

    pub select-parts : chosen ≡ first.0 ++ others.0
    unfolding select
    select-parts =
        ap
          (λ ps.
            let f = fill (get_available_tokens config) 0 (keep is_system ps) in
            f.0 ++ (fill (get_available_tokens config) f.1 eligible).0)
          (scored-packets packets' w)

    total : others.1 ≡ tokens chosen
    total =
        let f = fill-tokens (get_available_tokens config) 0 systems in
        let o = fill-tokens (get_available_tokens config) first.1 eligible in
        let s = sum_by-append (λ (p : ContextPacket). p.token_count) first.0 others.0 in
        let t : tokens chosen ≡ tokens (first.0 ++ others.0) = ap tokens select-parts in
        omega (arith, f, o, s, t)

    fits : tokens chosen ≤ get_available_tokens config
    fits =
        let f = fill_fits (get_available_tokens config) 0 systems (omega arith) in
        let o = fill_fits (get_available_tokens config) first.1 eligible f in
        omega (arith, o, total)

    into : {p : ContextPacket} → Memᴰ p (first.0 ++ others.0) → Memᴰ p chosen
    into {p} = subst (Memᴰ p) (sym select-parts)

    eligible-maximal :
        {p : ContextPacket}
        → Memᴰ p eligible
        → Memᴰ p chosen ⊎ (get_available_tokens config < tokens chosen + p.token_count)
    eligible-maximal m = elim (fill_maximal (get_available_tokens config) first.1 eligible m) [
      | inl here ↦ inl (into (Memᴰ.append_right first.0 here))
      | inr full ↦ inr (omega (arith, full, total))
    ]

    systems-first :
        {p : ContextPacket}
        → Memᴰ p systems
        → Memᴰ p chosen ⊎ (get_available_tokens config < tokens first.0 + p.token_count)
    systems-first m = elim (fill_maximal (get_available_tokens config) 0 systems m) [
      | inl here ↦ inl (into (Memᴰ.append_left others.0 here))
      | inr full ↦ inr (omega (arith, full, fill-tokens (get_available_tokens config) 0 systems))
    ]

    chosen-systems : keep is_system chosen ≡ first.0
    chosen-systems =
        ap (keep is_system) select-parts
        ∙ keep-append is_system first.0 others.0
        ∙ ap (λ xs. xs ++ keep is_system others.0)
            (keep_all is_system first.0
              (λ p m. (mem_of_mem-keep is_system packets' (fill-mem _ 0 systems m)).1))
        ∙ ap (λ ys. first.0 ++ ys)
            (keep_none is_system others.0 (λ p m.
              (candidates_from config (scored packets' w).0 (fill-mem _ first.1 eligible m)).1))
        ∙ append-nil first.0

  -- Every packet that is selected is one of the packets with its relevance, and is eligible.
  pub select_sound :
      (config : ContextConfig) (user_query : Text) (packets : List ContextPacket) (w : World)
      {p : ContextPacket}
      → Memᴰ p (select config user_query packets w).0
      → Memᴰ p (map (rated user_query) packets) × IsEligible config p
  select_sound config user_query packets w {p} m =
      elim (Memᴰ.append_cases (first config user_query packets w).0
        (subst (Memᴰ p) (select-parts config user_query packets w) m)) [
          | inl here ↦
              let (from, system) =
                mem_of_mem-keep is_system _
                  (fill-mem _ 0 (systems config user_query packets w) here) in
              (from, inl system)
          | inr here ↦
              let (from, _, relevant) = candidates_from config _ (
                fill-mem _ (first config user_query packets w).1
                  (eligible config user_query packets w) here) in
              (subst (Memᴰ p) (scored-packets _ w) from, inr relevant)
        ]

  -- The selection stays within the available tokens, and is as large as it can be: a packet that is
  -- eligible is selected or would not fit beside the whole selection.
  pub select_maximal :
      (config : ContextConfig) (user_query : Text) (packets : List ContextPacket) (w : World)
      {p : ContextPacket}
      → Memᴰ p packets
      → IsEligible config (rated user_query p)
      → (tokens (select config user_query packets w).0 ≤ get_available_tokens config)
        × (Memᴰ (rated user_query p) (select config user_query packets w).0
            ⊎ (get_available_tokens config
                < tokens (select config user_query packets w).0 + p.token_count))
  unfolding has_type
  select_maximal config user_query packets w {p} m chance = (
    fits config user_query packets w,
    let m' = Memᴰ.map (rated user_query) m in
        elim (Bool-cases (is_system p)) [
          | inl system ↦
              elim (systems-first config user_query packets w
                (mem-keep_of_mem is_system m' system)) [
                  | inl here ↦ inl here
                  | inr full ↦
                      let t = total config user_query packets w in
                      let g =
                        fill-tokens (get_available_tokens config) 0
                          (systems config user_query packets w) in
                      let o =
                        fill-tokens (get_available_tokens config)
                          (first config user_query packets w).1
                          (eligible config user_query packets w) in
                      inr (omega (arith, full, t, g, o))
                ]
          | inr other ↦ elim chance [
            | inl system ↦ absurd cc
            | inr relevant ↦ eligible-maximal config user_query packets w (
                candidates_into config _ (subst (Memᴰ _) (sym (scored-packets _ w)) m') other
                  relevant)
          ]
        ],
  )

  -- Nothing but other instructions can keep instructions out of the selection.
  pub select_instructions :
      (config : ContextConfig) (user_query : Text) (packets : List ContextPacket) (w : World)
      {p : ContextPacket}
      → Memᴰ p packets
      → is_system p ≡ true
      → Memᴰ (rated user_query p) (select config user_query packets w).0
        ⊎ (get_available_tokens config
            < tokens (keep is_system (select config user_query packets w).0) + p.token_count)
  unfolding has_type
  select_instructions config user_query packets w m system =
      rw (chosen-systems config user_query packets w) (
        systems-first config user_query packets w
          (mem-keep_of_mem is_system (Memᴰ.map (rated user_query) m) system))
