-- ===== src/Anp/Network/Routes.antt =====
-- `route_message` finds a shortest route of at most one hop, and finds one whenever there is one.
use tokenlyfy_v.Support.{
  String, none, some, List, [], ◌∷◌, true, false, ◌≡◌, ◌⊎◌, inl, inr, arith, eq_iff, Bool-cases,
  Option-cases,
}
use tokenlyfy_v.Support.Names.{contains}
use tokenlyfy_v.Support.Dict
use tokenlyfy_v.Anp.Network.{Network, targets_of, find_hop, route_message}

module _ {ℓ} {M : Type ℓ} (net : Network M) where
  -- There is a connection.
  abbrev pub Edge : String → String → Type 0
  Edge a b = contains b (targets_of net a) ≡ true

  -- A direct route, or a route over one hop where there is no direct one.
  abbrev pub IsRoute : String → String → List String → Type 0
  IsRoute from to path =
      (path ≡ from ∷ to ∷ []) × Edge from to
      ⊎ ((hop : String) × (path ≡ from ∷ hop ∷ to ∷ [])
          × (contains to (targets_of net from) ≡ false)
          × Edge from hop
          × Edge hop to)

  find_hop_found :
      (to : String) (hops : List String) (hop : String)
      → find_hop net to hops ≡ some hop
      → (contains hop hops ≡ true) × Edge hop to
  unfolding find_hop contains
  find_hop_found to [] hop h = cc
  find_hop_found to (k ∷ hops) hop h = elim (Bool-cases (contains to (targets_of net k))) [
    | inl e ↦ ground (arith, eq_iff k hop)
    | inr e ↦ ground (arith, find_hop_found to hops hop)
  ]

  find_hop_missed :
      (to : String) (hops : List String) (hop : String)
      → find_hop net to hops ≡ none
      → contains hop hops ≡ true
      → contains to (targets_of net hop) ≡ false
  unfolding find_hop contains
  find_hop_missed to [] hop h c = cc
  find_hop_missed to (k ∷ hops) hop h c = ground (arith, eq_iff k hop, find_hop_missed to hops hop)

  -- Both ends are nodes.
  abbrev pub AreNodes : String → String → Type 0
  AreNodes a b = (Dict.has a net.nodes ≡ true) × (Dict.has b net.nodes ≡ true)

  -- A returned route joins two nodes by connections that exist, and is a shortest one.
  pub route_message_sound :
      (from to : String) (path : List String)
      → route_message net from to ≡ some path
      → AreNodes from to × IsRoute from to path
  unfolding route_message
  route_message_sound from to path h = elim (Option-cases (find_hop net to (targets_of net from))) [
    | inl e ↦ (ground arith, inl (ground arith))
    | inr (hop, e) ↦
        let (listed, edge) = find_hop_found to (targets_of net from) hop e in
        elim (Bool-cases (contains to (targets_of net from))) [
          | inl d ↦ (ground arith, inl (ground arith))
          | inr d ↦ (ground arith, inr (hop, ground arith, d, listed, edge))
        ]
  ]

  -- Where no route is returned between two nodes, there is none of at most one hop.
  pub route_message_complete :
      (from to : String) (path : List String)
      → route_message net from to ≡ none
      → AreNodes from to
      → ¬ IsRoute from to path
  unfolding route_message
  route_message_complete from to path h ends (inl (e, d)) = ground arith
  route_message_complete from to path h ends (inr (hop, e, d, listed, edge)) =
      ground (arith, find_hop_missed to (targets_of net from) hop)
