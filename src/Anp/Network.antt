-- ===== src/Anp/Network.antt =====
-- `ANPNetwork` of protocols/anp/implementation.py: nodes, directed connections, routes of at most
-- one hop. The message of a route or a broadcast is not read by the code, so it is left out.
pub mod WellFormed
pub mod History
pub mod Routes
pub mod Counts
pub mod Removal
mod Tests
use tokenlyfy_v.Support.{
  ℕ, ◌+◌, String, Option, none, some, List, [], ◌∷◌, ◌++◌, Bool, true, false, not, ◌&&◌, ◌||◌, ◌==◌,
  if◌then◌else◌, length, sum_by, keep,
}
use tokenlyfy_v.Support.Names.{contains, remove_first}
use tokenlyfy_v.Support.Dict
use tokenlyfy_v.Support.Dict.{Dict}
use tokenlyfy_v.Support.Outcome.{Outcome, ok, raise, key_error, ◌>>=◌, or_key_error}

-- What `_nodes` holds of a node, with metadata of any type.
pub record Node {ℓ} (M : Type ℓ) : Type ℓ where
  pub node_id : String
  pub endpoint : String
  pub metadata : Dict M
  pub status : String

pub record Network {ℓ} (M : Type ℓ) : Type ℓ where
  pub network_id : String
  pub nodes : Dict (Node M)
  pub connections : Dict (List String)

pub record Stats : Type 0 where
  pub network_id : String
  pub total_nodes : ℕ
  pub active_nodes : ℕ
  pub total_connections : ℕ
  pub nodes : List String

pub record NodeInfo {ℓ} (M : Type ℓ) : Type ℓ where
  pub node : Node M
  pub connections : List String

-- `if node_id in connections: connections.remove(node_id)`
abbrev pub forget : String → List String → List String
forget id targets = if contains id targets then remove_first id targets else targets

-- `connections[from].append(to)`, unless it stands there
abbrev pub link : String → List String → List String
link to targets = if contains to targets then targets else targets ++ to ∷ []

module _ {ℓ} {M : Type ℓ} where
  unfoldable pub new_network : String → Network M
  new_network id = record { network_id = id; nodes = []; connections = [] }

  unfoldable pub add_node : Network M → String → String → Option (Dict M) → Network M
  add_node net id endpoint metadata = record net {
    nodes =
        Dict.put id
          (record {
            node_id = id;
            endpoint = endpoint;
            metadata = elim metadata [ none ↦ [] | some m ↦ m ];
            status = "active";
          })
          net.nodes;
    connections = Dict.put id [] net.connections;
  }

  -- `del self._connections[node_id]` raises when the node has no entry there.
  unfoldable pub remove_node : Network M → String → Outcome (Network M × Bool)
  remove_node net id =
      if Dict.has id net.nodes
      then if Dict.has id net.connections
        then ok (
          record net {
            nodes = Dict.delete id net.nodes;
            connections = Dict.map_values (forget id) (Dict.delete id net.connections);
          },
          true,
        )
        else raise (key_error id)
      else ok (net, false)

  unfoldable pub connect_nodes : Network M → String → String → Network M
  connect_nodes net from to = elim (Dict.get from net.connections) [
    | none ↦ net
    | some targets ↦
        if Dict.has to net.nodes
        then record net { connections = Dict.put from (link to targets) net.connections }
        else net
  ]

  -- `self._connections.get(node, [])`
  unfoldable pub targets_of : Network M → String → List String
  targets_of net id = elim (Dict.get id net.connections) [ none ↦ [] | some targets ↦ targets ]

  -- The loop over the hops: the first neighbour that is connected to the goal.
  unfoldable pub find_hop : Network M → String → List String → Option String
  find_hop net to [] = none
  find_hop net to (hop ∷ hops) =
      if contains to (targets_of net hop) then some hop else find_hop net to hops

  unfoldable pub route_message : Network M → String → String → Option (List String)
  route_message net from to =
      if not (Dict.has from net.nodes) || not (Dict.has to net.nodes)
      then none
      else if contains to (targets_of net from)
      then some (from ∷ to ∷ [])
      else elim (find_hop net to (targets_of net from)) [
        | none ↦ none
        | some hop ↦ some (from ∷ hop ∷ to ∷ [])
      ]

  unfoldable pub broadcast_message : Network M → String → List String
  broadcast_message net from = elim (Dict.get from net.connections) [
    | none ↦ []
    | some targets ↦ targets
  ]

  unfoldable pub get_network_stats : Network M → Stats
  get_network_stats net = record {
    network_id = net.network_id;
    total_nodes = length net.nodes;
    active_nodes = length (keep (λ (n : Node M). n.status == "active") (Dict.values net.nodes));
    total_connections = sum_by length (Dict.values net.connections);
    nodes = Dict.keys net.nodes;
  }

  -- `self._connections[node_id]` raises when the node has no entry there.
  unfoldable pub get_node_info : Network M → String → Outcome (Option (NodeInfo M))
  get_node_info net id = elim (Dict.get id net.nodes) [
    | none ↦ ok none
    | some node ↦ do
      targets ← or_key_error id (Dict.get id net.connections)
      ok (some (record { node = node; connections = targets }))
  ]
