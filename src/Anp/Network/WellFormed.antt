-- ===== src/Anp/Network/WellFormed.antt =====
-- The invariant of `ANPNetwork` and its preservation by every operation.
use tokenlyfy_v.Support.{
  String, Option, List, [], Bool, true, false, ◌==◌, ◌≡◌, refl, ap, ◌&&◌, if◌then◌else◌, arith,
  eq_iff, Bool-cases, inl, inr, Option-cases,
}
use tokenlyfy_v.Support.Names.{
  contains, IsDistinct, contains-snoc, IsDistinct-snoc, contains-remove_first_ne,
  contains-remove_first_self, IsDistinct-remove_first,
}
use tokenlyfy_v.Support.Dict
use tokenlyfy_v.Support.Dict.{Dict, dict_laws}
use tokenlyfy_v.Support.Outcome.{ok}
use tokenlyfy_v.Anp.Network.{
  Network, new_network, add_node, remove_node, connect_nodes, targets_of, forget, link,
}

-- Nodes and connection lists have the same keys, connections lead to nodes, none stands twice.
pub record IsWellFormed {ℓ} {M : Type ℓ} (net : Network M) : Type 0 where
  pub paired : (n : String) → Dict.has n net.nodes ≡ Dict.has n net.connections
  pub known : (n m : String) → contains m (targets_of net n) ≡ true → Dict.has m net.nodes ≡ true
  pub distinct : (n : String) → IsDistinct (targets_of net n)

pub contains-forget :
    (id m : String) (targets : List String)
    → IsDistinct targets
    → contains m (forget id targets) ≡ (if id == m then false else contains m targets)
contains-forget id m targets d = ground (
  arith,
  eq_iff id m,
  contains-remove_first_self id targets d,
  contains-remove_first_ne id m targets,
)

forget-IsDistinct :
    (id : String) (targets : List String) → IsDistinct targets → IsDistinct (forget id targets)
forget-IsDistinct id targets d = elim (Bool-cases (contains id targets)) [
  | inl e ↦ rw e (IsDistinct-remove_first id targets d)
  | inr e ↦ rw e d
]

contains-link :
    (to m : String) (targets : List String)
    → contains m (link to targets) ≡ (if to == m then true else contains m targets)
contains-link to m targets = ground (arith, eq_iff to m, contains-snoc m to targets)

link-IsDistinct :
    (to : String) (targets : List String) → IsDistinct targets → IsDistinct (link to targets)
link-IsDistinct to targets d = elim (Bool-cases (contains to targets)) [
  | inl e ↦ rw e d
  | inr e ↦ rw e (IsDistinct-snoc to targets e d)
]

IsDistinct-if :
    (b : Bool) (xs ys : List String)
    → IsDistinct xs
    → IsDistinct ys
    → IsDistinct (if b then xs else ys)
IsDistinct-if true xs ys x y = x
IsDistinct-if false xs ys x y = y

module _ {ℓ} {M : Type ℓ} where
  abbrev pub removed : Network M → String → Network M
  removed net id = record net {
    nodes = Dict.delete id net.nodes;
    connections = Dict.map_values (forget id) (Dict.delete id net.connections);
  }

  pub targets_of-add_node :
      (net : Network M) (id e : String) (m : Option (Dict M)) (n : String)
      → targets_of (add_node net id e m) n ≡ (if id == n then [] else targets_of net n)
  unfolding targets_of add_node
  targets_of-add_node net id e m n = ground (arith, Dict.get-put id n [] net.connections)

  pub targets_of-removed :
      (net : Network M) (id n : String)
      → targets_of (removed net id) n ≡ (if id == n then [] else forget id (targets_of net n))
  unfolding targets_of contains
  targets_of-removed net id n = ground (
    arith,
    Dict.get-map_values (forget id) n (Dict.delete id net.connections),
    Dict.get-delete id n net.connections,
  )

  pub remove_node-eq :
      (net : Network M) (id : String)
      → IsWellFormed net
      → remove_node net id
        ≡ ok (if Dict.has id net.nodes then (removed net id, true) else (net, false))
  unfolding remove_node
  remove_node-eq net id w = ground (arith, w.paired id)

  pub new_network-IsWellFormed : (id : String) → IsWellFormed (new_network {M = M} id)
  unfolding new_network targets_of Dict.has Dict.get contains
  new_network-IsWellFormed id = record {
    paired = λ n. refl;
    known = λ n m h. cc;
    distinct = λ n. tt;
  }

  pub add_node-IsWellFormed :
      (net : Network M) (id e : String) (m : Option (Dict M))
      → IsWellFormed net
      → IsWellFormed (add_node net id e m)
  unfolding contains
  add_node-IsWellFormed net id e m w = record {
    paired = λ n. unfold add_node in simp dict_laws (ground (arith, w.paired n));
    known = λ n k h.
        unfold add_node in
        rw Dict.has-put
          (ground (arith, ap (contains k) (targets_of-add_node net id e m n), w.known n k));
    distinct = λ n.
        rw targets_of-add_node (IsDistinct-if (id == n) [] (targets_of net n) tt (w.distinct n));
  }

  pub removed-IsWellFormed :
      (net : Network M) (id : String) → IsWellFormed net → IsWellFormed (removed net id)
  unfolding contains
  removed-IsWellFormed net id w = record {
    paired = λ n. simp dict_laws (ground (arith, w.paired n));
    known = λ n k h. rw Dict.has-delete (
        ground (
          arith,
          ap (contains k) (targets_of-removed net id n),
          contains-forget id k (targets_of net n) (w.distinct n),
          w.known n k,
        ));
    distinct = λ n. rw targets_of-removed (
        IsDistinct-if (id == n) [] (forget id (targets_of net n)) tt
          (forget-IsDistinct id (targets_of net n) (w.distinct n)));
  }

  -- Only the list of an existing source changes, and only if the target is a node.
  abbrev pub connects : Network M → String → String → String → Bool
  connects net from to n = Dict.has from net.connections && Dict.has to net.nodes && from == n

  pub targets_of-connect_nodes :
      (net : Network M) (from to n : String)
      → targets_of (connect_nodes net from to) n
        ≡ (if connects net from to n then link to (targets_of net n) else targets_of net n)
  unfolding targets_of connect_nodes
  targets_of-connect_nodes net from to n = elim (Option-cases (Dict.get from net.connections)) [
    | inl e ↦ ground (arith, Dict.has-eq-is_some from net.connections)
    | inr (targets, e) ↦ ground (
      arith,
      Dict.has-eq-is_some from net.connections,
      Dict.get-put from n (link to targets) net.connections,
      eq_iff from n,
    )
  ]

  pub nodes-connect_nodes :
      (net : Network M) (from to : String) → (connect_nodes net from to).nodes ≡ net.nodes
  unfolding connect_nodes
  nodes-connect_nodes net from to = ground arith

  has-connect_nodes :
      (net : Network M) (from to n : String)
      → Dict.has n (connect_nodes net from to).connections ≡ Dict.has n net.connections
  unfolding connect_nodes
  has-connect_nodes net from to n = elim (Option-cases (Dict.get from net.connections)) [
    | inl e ↦ ground arith
    | inr (targets, e) ↦ ground (
      arith,
      Dict.has-eq-is_some from net.connections,
      Dict.has-put from n (link to targets) net.connections,
      eq_iff from n,
    )
  ]

  pub connect_nodes-IsWellFormed :
      (net : Network M) (from to : String)
      → IsWellFormed net
      → IsWellFormed (connect_nodes net from to)
  connect_nodes-IsWellFormed net from to w = record {
    paired = λ n. rw (nodes-connect_nodes, has-connect_nodes) (w.paired n);
    known = λ n k h. rw nodes-connect_nodes (
        ground (
          arith,
          ap (contains k) (targets_of-connect_nodes net from to n),
          contains-link to k (targets_of net n),
          w.known n k,
          eq_iff to k,
        ));
    distinct = λ n. rw targets_of-connect_nodes (
        IsDistinct-if (connects net from to n) (link to (targets_of net n)) (targets_of net n)
          (link-IsDistinct to (targets_of net n) (w.distinct n)) (w.distinct n));
  }
