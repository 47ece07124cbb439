-- ===== src/Context/Select/Greedy.antt =====
-- What `_select` of context/builder.py leaves out, and why.
use mathlib.Core.List.Memᴰ
use mathlib.Core.List.{Memᴰ}
use tokenlyfy_v.Support.{
  ℕ, ◌+◌, ◌≤◌, ◌<◌, ◌⊎◌, inl, inr, List, [], ◌∷◌, true, false, not, ◌≡◌, refl, sym, ap, keep, map,
  leb, Bool-cases, sum_by, mem-keep_of_mem, mem_of_mem-keep, leb→le, arith,
}
use tokenlyfy_v.Support.Text.{Text, split}
use tokenlyfy_v.Support.Sort.{sorted, mem-sorted_of_mem, mem_of_mem-sorted}
use tokenlyfy_v.Context.{Platform, ContextPacket, ContextConfig, is_system}
use tokenlyfy_v.Context.Select.{distinct, with_relevance, scored, fill, packet_of}

module _ ⦃platform : Platform⦄ where
  open platform use {World, Float, lower, at_least, above}

  abbrev pub tokens : List ContextPacket → ℕ
  tokens = sum_by (λ p. p.token_count)

  -- The packet with the relevance that `_select` gives it.
  abbrev pub rated : Text → ContextPacket → ContextPacket
  rated user_query = with_relevance (distinct (split (lower user_query)))

  -- Instructions are always eligible, other packets by their relevance.
  abbrev pub IsEligible : ContextConfig → ContextPacket → Type 0
  IsEligible config p =
      (is_system p ≡ true) ⊎ (at_least p.relevance_score config.min_relevance ≡ true)

  pub fill-tokens :
      (available used : ℕ) (packets : List ContextPacket)
      → (fill available used packets).1 ≡ used + tokens (fill available used packets).0
  unfolding fill
  fill-tokens available used [] = omega arith
  fill-tokens available used (p ∷ packets) =
      elim (Bool-cases (leb (used + p.token_count) available)) [
        | inl e ↦ rw (fill, e) (omega (arith, fill-tokens available (used + p.token_count) packets))
        | inr e ↦ rw (fill, e) (fill-tokens available used packets)
      ]

  pub fill_fits :
      (available used : ℕ) (packets : List ContextPacket)
      → used ≤ available
      → (fill available used packets).1 ≤ available
  unfolding fill
  fill_fits available used [] h = h
  fill_fits available used (p ∷ packets) h =
      elim (Bool-cases (leb (used + p.token_count) available)) [
        | inl e ↦ rw (fill, e) (fill_fits available (used + p.token_count) packets (leb→le _ _ e))
        | inr e ↦ rw (fill, e) (fill_fits available used packets h)
      ]

  pub fill-mem :
      (available used : ℕ) (packets : List ContextPacket) {p : ContextPacket}
      → Memᴰ p (fill available used packets).0
      → Memᴰ p packets
  unfolding fill
  fill-mem available used [] m = m
  fill-mem available used (q ∷ packets) m =
      elim (Bool-cases (leb (used + q.token_count) available)) [
        | inl e ↦ elim (Memᴰ.cases_cons (rw (fill, e) at m)) [
          | inl same ↦ Memᴰ.head same
          | inr later ↦ Memᴰ.tail (fill-mem available (used + q.token_count) packets later)
        ]
        | inr e ↦ Memᴰ.tail (fill-mem available used packets (rw (fill, e) at m))
      ]

  pub fill_maximal :
      (available used : ℕ) (packets : List ContextPacket) {p : ContextPacket}
      → Memᴰ p packets
      → Memᴰ p (fill available used packets).0
        ⊎ (available < (fill available used packets).1 + p.token_count)
  unfolding fill
  fill_maximal available used [] m = absurd (Memᴰ.not-nil m)
  fill_maximal available used (q ∷ packets) {p} m =
      elim (Bool-cases (leb (used + q.token_count) available)) [
        | inl e ↦
            rw (fill, e)
              (elim (Memᴰ.cases_cons m) [
                | inl same ↦ inl (Memᴰ.head same)
                | inr later ↦ elim (fill_maximal available (used + q.token_count) packets later) [
                  | inl deep ↦ inl (Memᴰ.tail deep)
                  | inr full ↦ inr full
                ]
              ])
        | inr e ↦
            rw (fill, e)
              (elim (Memᴰ.cases_cons m) [
                | inl same ↦
                    let size : p.token_count ≡ q.token_count =
                      ap (λ (x : ContextPacket). x.token_count) same in
                    inr (ground (arith, e, size, fill-tokens available used packets))
                | inr later ↦ fill_maximal available used packets later
              ])
      ]

  pub scored-packets :
      (packets : List ContextPacket) (w : World) → map packet_of (scored packets w).0 ≡ packets
  unfolding scored
  scored-packets [] w = refl
  scored-packets (p ∷ packets) w = ap (◌∷◌ p) (scored-packets packets _)

  abbrev pub candidates : ContextConfig → List (Float × ContextPacket) → List ContextPacket
  candidates config scores =
      keep (λ p. at_least p.relevance_score config.min_relevance)
        (keep (λ p. not (is_system p)) (map packet_of (sorted (λ a b. above a.0 b.0) scores)))

  pub candidates_from :
      (config : ContextConfig) (scores : List (Float × ContextPacket)) {p : ContextPacket}
      → Memᴰ p (candidates config scores)
      → Memᴰ p (map packet_of scores)
        × (is_system p ≡ false)
        × (at_least p.relevance_score config.min_relevance ≡ true)
  candidates_from config scores {p} m =
      let (m, relevant) = mem_of_mem-keep _ _ m in
      let (m, other) = mem_of_mem-keep _ _ m in
      let (x, m, same) = Memᴰ.of_map packet_of _ m in
      (
        Memᴰ.cast (sym same) (Memᴰ.map packet_of (mem_of_mem-sorted _ scores m)),
        ground (arith, other),
        relevant,
      )

  pub candidates_into :
      (config : ContextConfig) (scores : List (Float × ContextPacket)) {p : ContextPacket}
      → Memᴰ p (map packet_of scores)
      → is_system p ≡ false
      → at_least p.relevance_score config.min_relevance ≡ true
      → Memᴰ p (candidates config scores)
  candidates_into config scores m other relevant =
      let (x, m, same) = Memᴰ.of_map packet_of _ m in
      mem-keep_of_mem _
        (mem-keep_of_mem _
          (Memᴰ.cast (sym same) (Memᴰ.map packet_of (mem-sorted_of_mem _ scores m))) (ap not other))
        relevant
