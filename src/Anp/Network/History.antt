-- ===== src/Anp/Network/History.antt =====
-- Every sequence of the operations of `ANPNetwork`, from an empty network.
use tokenlyfy_v.Support.{String, Option, List, [], ◌∷◌, ◌≡◌, refl, Bool-cases, inl, inr}
use tokenlyfy_v.Support.Dict
use tokenlyfy_v.Support.Dict.{Dict}
use tokenlyfy_v.Support.Outcome.{Outcome, ok, ◌>>=◌}
use tokenlyfy_v.Anp.Network.{Network, new_network, add_node, remove_node, connect_nodes}
use tokenlyfy_v.Anp.Network.WellFormed.{
  IsWellFormed, removed, remove_node-eq, new_network-IsWellFormed, add_node-IsWellFormed,
  removed-IsWellFormed, connect_nodes-IsWellFormed,
}

-- A call that changes the network.
pub data Call {ℓ} (M : Type ℓ) : Type ℓ where
  add : String → String → Option (Dict M) → Call M
  remove : String → Call M
  connect : String → String → Call M

module _ {ℓ} {M : Type ℓ} where
  unfoldable pub apply : Network M → Call M → Outcome (Network M)
  apply net (add id endpoint metadata) = ok (add_node net id endpoint metadata)
  apply net (remove id) = do done ← remove_node net id; ok done.0
  apply net (connect from to) = ok (connect_nodes net from to)

  -- The first exception ends the run.
  unfoldable pub run : Network M → List (Call M) → Outcome (Network M)
  unfolding apply
  run net [] = ok net
  run net (call ∷ calls) = do next ← apply net call; run next calls

  apply-IsWellFormed :
      (net : Network M) (call : Call M)
      → IsWellFormed net
      → (next : Network M) × (apply net call ≡ ok next) × IsWellFormed next
  unfolding apply
  apply-IsWellFormed net (add id e m) w = (_, refl, add_node-IsWellFormed net id e m w)
  apply-IsWellFormed net (connect from to) w = (_, refl, connect_nodes-IsWellFormed net from to w)
  apply-IsWellFormed net (remove id) w = elim (Bool-cases (Dict.has id net.nodes)) [
    | inl e ↦ (removed net id, rw (remove_node-eq net id w, e) refl, removed-IsWellFormed net id w)
    | inr e ↦ (net, rw (remove_node-eq net id w, e) refl, w)
  ]

  pub run-IsWellFormed_from :
      (net : Network M) (calls : List (Call M))
      → IsWellFormed net
      → (last : Network M) × (run net calls ≡ ok last) × IsWellFormed last
  unfolding run
  run-IsWellFormed_from net [] w = (net, refl, w)
  run-IsWellFormed_from net (call ∷ calls) w =
      let (next, e, w') = apply-IsWellFormed net call w in
      let (last, e', w'') = run-IsWellFormed_from next calls w' in (last, rw e e', w'')

  -- No sequence of calls on a new network raises, and the network that it ends in is well formed:
  -- nodes and connection lists have the same keys, every connection leads to a node, and no
  -- connection stands twice.
  pub run-IsWellFormed :
      (network_id : String) (calls : List (Call M))
      → (last : Network M) × (run (new_network network_id) calls ≡ ok last) × IsWellFormed last
  run-IsWellFormed network_id calls =
      run-IsWellFormed_from (new_network network_id) calls (new_network-IsWellFormed network_id)
