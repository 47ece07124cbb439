-- ===== src/Anp/Network/Counts.antt =====
-- `get_network_stats`: what the counts follow.
use mathlib.Core.Path.{subst}
use tokenlyfy_v.Support.{
  ◌+◌, String, some, List, [], ◌∷◌, true, ◌==◌, ◌≡◌, inl, inr, refl, arith, eq_refl, Bool-cases,
  Option-cases, if◌then◌else◌, length, sum_by, All, keep, length-append,
}
use tokenlyfy_v.Support.Names.{contains}
use tokenlyfy_v.Support.Dict
use tokenlyfy_v.Support.Dict.{Dict}
use tokenlyfy_v.Support.Outcome.{ok, OnOk, OnOk->>=}
use tokenlyfy_v.Anp.Network.{
  Network, Node, new_network, add_node, connect_nodes, targets_of, remove_node, get_network_stats,
  link,
}
use tokenlyfy_v.Anp.Network.WellFormed.{nodes-connect_nodes}
use tokenlyfy_v.Anp.Network.History.{Call, add, remove, connect, apply, run}

sum-put :
    (k : String) (old new : List String) (d : Dict (List String))
    → Dict.get k d ≡ some old
    → sum_by length (Dict.values (Dict.put k new d)) + length old
      ≡ sum_by length (Dict.values d) + length new
unfolding Dict.values Dict.get Dict.put
sum-put k old new [] h = cc
sum-put k old new ((j, v) ∷ d) h = ground (arith, sum-put k old new d)

length-link :
    (to : String) (targets : List String)
    → length (link to targets) ≡ length targets + (if contains to targets then 0 else 1)
length-link to targets = ground (arith, length-append targets (to ∷ []))

module _ {ℓ} {M : Type ℓ} where
  -- A connection between existing nodes counts once: the total grows by one unless the connection
  -- was there, and a connection from or to a missing node changes nothing.
  pub total_connections-connect_nodes :
      (net : Network M) (from to : String)
      → (get_network_stats (connect_nodes net from to)).total_connections
        ≡ (get_network_stats net).total_connections
          + (if Dict.has from net.connections
              then if Dict.has to net.nodes
                then if contains to (targets_of net from) then 0 else 1
                else 0
              else 0)
  unfolding get_network_stats connect_nodes targets_of
  total_connections-connect_nodes net from to =
      elim (Option-cases (Dict.get from net.connections)) [
        | inl e ↦ ground (arith, Dict.has-eq-is_some from net.connections)
        | inr (targets, e) ↦ ground (
          arith,
          Dict.has-eq-is_some from net.connections,
          sum-put from targets (link to targets) net.connections,
          length-link to targets,
        )
      ]

  abbrev AreActive : Dict (Node M) → Type 0
  AreActive = All (λ e. (e.1.status == "active") ≡ true)

  active_put :
      (id : String) (n : Node M) (d : Dict (Node M))
      → (n.status == "active") ≡ true
      → AreActive d
      → AreActive (Dict.put id n d)
  unfolding Dict.put
  active_put id n [] a h = (a, tt)
  active_put id n ((j, w) ∷ d) a h = elim (Bool-cases (j == id)) [
    | inl e ↦ rw e (a, h.1)
    | inr e ↦ rw e (h.0, active_put id n d a h.1)
  ]

  active_delete : (id : String) (d : Dict (Node M)) → AreActive d → AreActive (Dict.delete id d)
  unfolding Dict.delete
  active_delete id [] h = tt
  active_delete id ((j, w) ∷ d) h = elim (Bool-cases (j == id)) [
    | inl e ↦ rw e (active_delete id d h.1)
    | inr e ↦ rw e (h.0, active_delete id d h.1)
  ]

  abbrev HasActive : Network M → Type 0
  HasActive net = AreActive net.nodes

  active_apply : (net : Network M) (call : Call M) → HasActive net → OnOk HasActive (apply net call)
  unfolding apply add_node remove_node
  active_apply net (add id e m) h = active_put id _ net.nodes (eq_refl "active") h
  active_apply net (connect from to) h = rw nodes-connect_nodes h
  active_apply net (remove id) h = elim (Bool-cases (Dict.has id net.nodes)) [
    | inl e ↦ rw e (elim (Bool-cases (Dict.has id net.connections)) [
      | inl e' ↦ rw e' (active_delete id net.nodes h)
      | inr e' ↦ rw e' tt
    ])
    | inr e ↦ rw e h
  ]

  active_run :
      (net : Network M) (calls : List (Call M)) → HasActive net → OnOk HasActive (run net calls)
  unfolding run
  active_run net [] h = h
  active_run net (call ∷ calls) h =
      OnOk->>= HasActive HasActive (apply net call) (λ next. run next calls)
        (active_apply net call h) (λ next k. active_run next calls k)

  active_count :
      (d : Dict (Node M))
      → AreActive d
      → length (keep (λ (n : Node M). n.status == "active") (Dict.values d)) ≡ length d
  unfolding keep Dict.values
  active_count [] h = refl
  active_count ((j, w) ∷ d) h = ground (arith, active_count d h.1)

  -- After any calls on a new network, every node counts as active.
  pub active_nodes-eq-total_nodes :
      (id : String) (calls : List (Call M)) (last : Network M)
      → run (new_network id) calls ≡ ok last
      → (get_network_stats last).active_nodes ≡ (get_network_stats last).total_nodes
  unfolding get_network_stats
  active_nodes-eq-total_nodes id calls last e =
      active_count last.nodes
        (subst (OnOk HasActive) e (active_run (new_network id) calls (unfold new_network in tt)))
