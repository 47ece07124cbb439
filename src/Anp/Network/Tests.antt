-- ===== src/Anp/Network/Tests.antt =====
-- The example network of protocols/anp/implementation.py, a relayed network, and the theorems of
-- this folder at them.
use tokenlyfy_v.Support.{String, Option, none, some, List, [], ◌∷◌, true, false, ◌≡◌, refl}
use tokenlyfy_v.Support.Names.{contains, remove_first}
use tokenlyfy_v.Support.Dict
use tokenlyfy_v.Support.Dict.{Dict}
use tokenlyfy_v.Support.Outcome.{ok}
use tokenlyfy_v.Anp.Network.{
  Network, new_network, add_node, remove_node, connect_nodes, targets_of, find_hop, route_message,
  broadcast_message, get_network_stats, get_node_info,
}
use tokenlyfy_v.Anp.Network.WellFormed.{
  IsWellFormed, removed, new_network-IsWellFormed, add_node-IsWellFormed,
  connect_nodes-IsWellFormed,
}
use tokenlyfy_v.Anp.Network.History.{Call, add, connect, run, run-IsWellFormed}
use tokenlyfy_v.Anp.Network.Routes.{IsRoute, AreNodes, route_message_sound, route_message_complete}
use tokenlyfy_v.Anp.Network.Removal.{remove_node_isolates}

abbrev role : String → Option (Dict String)
role r = some (("type", "agent") ∷ ("role", r) ∷ [])

abbrev create_example_network : Network String
create_example_network =
    let n = new_network "example_network" in
    let n1 = add_node n "node1" "http://localhost:8001" (role "coordinator") in
    let n2 = add_node n1 "node2" "http://localhost:8002" (role "worker") in
    let n3 = add_node n2 "node3" "http://localhost:8003" (role "worker") in
    let c1 = connect_nodes n3 "node1" "node2" in
    let c2 = connect_nodes c1 "node1" "node3" in connect_nodes c2 "node2" "node3"

program : Unit {0}
unfolding new_network add_node remove_node connect_nodes targets_of find_hop route_message
    broadcast_message get_network_stats get_node_info run contains remove_first Dict.get Dict.has
    Dict.put Dict.delete Dict.keys Dict.values Dict.map_values
program = tt

example_route : route_message create_example_network "node1" "node2" ≡ some ("node1" ∷ "node2" ∷ [])
unfolding program
example_route = refl

example_broadcast : broadcast_message create_example_network "node1" ≡ "node2" ∷ "node3" ∷ []
unfolding program
example_broadcast = refl

example_connections : (get_network_stats create_example_network).total_connections ≡ 3
unfolding program
example_connections = refl

abbrev chain_calls : List (Call String)
chain_calls =
    add "a" "http://a" none
    ∷ add "b" "http://b" none
    ∷ add "c" "http://c" none
    ∷ connect "a" "b"
    ∷ connect "b" "c"
    ∷ connect "a" "missing"
    ∷ []

abbrev chain : Network String
chain =
    connect_nodes
      (connect_nodes
        (connect_nodes
          (add_node
            (add_node (add_node (new_network "chain") "a" "http://a" none) "b" "http://b" none) "c"
            "http://c" none)
          "a" "b")
        "b" "c")
      "a" "missing"

chain-run : run (new_network "chain") chain_calls ≡ ok chain
unfolding run
chain-run = refl

chain_route : route_message chain "a" "c" ≡ some ("a" ∷ "b" ∷ "c" ∷ [])
unfolding program
chain_route = refl

chain_no_route : route_message chain "c" "a" ≡ none
unfolding program
chain_no_route = refl

chain-IsWellFormed : IsWellFormed chain
chain-IsWellFormed = connect_nodes-IsWellFormed _ "a" "missing" (
    connect_nodes-IsWellFormed _ "b" "c" (
      connect_nodes-IsWellFormed _ "a" "b" (
        add_node-IsWellFormed _ "c" "http://c" none (
          add_node-IsWellFormed _ "b" "http://b" none
            (add_node-IsWellFormed _ "a" "http://a" none (new_network-IsWellFormed "chain"))))))

abbrev without_b : Network String
without_b = removed chain "b"

chain_remove : remove_node chain "b" ≡ ok (without_b, true)
unfolding program
chain_remove = refl

run-IsWellFormed_example :
    (last : Network String) × (run (new_network "chain") chain_calls ≡ ok last) × IsWellFormed last
run-IsWellFormed_example = run-IsWellFormed "chain" chain_calls

route_message_sound_example : AreNodes chain "a" "c" × IsRoute chain "a" "c" ("a" ∷ "b" ∷ "c" ∷ [])
route_message_sound_example = route_message_sound chain "a" "c" ("a" ∷ "b" ∷ "c" ∷ []) chain_route

chain_ends : AreNodes chain "c" "a"
unfolding program
chain_ends = (refl, refl)

route_message_complete_example : ¬ IsRoute chain "c" "a" ("c" ∷ "b" ∷ "a" ∷ [])
route_message_complete_example =
    route_message_complete chain "c" "a" ("c" ∷ "b" ∷ "a" ∷ []) chain_no_route chain_ends

remove_node_isolates_example :
    (route_message without_b "a" "c" ≡ some ("a" ∷ "c" ∷ [])
      → contains "b" ("a" ∷ "c" ∷ []) ≡ false)
    × (contains "b" (broadcast_message without_b "a") ≡ false)
remove_node_isolates_example =
    remove_node_isolates chain without_b "b" "a" "c" ("a" ∷ "c" ∷ []) chain-IsWellFormed
      chain_remove
