-- ===== src/Anp/Network/Removal.antt =====
-- What `remove_node` leaves behind.

use tokenlyfy_v.Support.{
  String, some, List, true, false, ◌≡◌, inl, inr, arith, sym, ap, eq_iff, ◌∙◌,
}
use tokenlyfy_v.Support.Names.{contains}
use tokenlyfy_v.Support.Dict
use tokenlyfy_v.Support.Outcome.{ok}
use tokenlyfy_v.Anp.Network.{Network, targets_of, remove_node, route_message, broadcast_message}
use tokenlyfy_v.Anp.Network.WellFormed.{
  IsWellFormed, removed, remove_node-eq, targets_of-removed, contains-forget,
}
use tokenlyfy_v.Anp.Network.Routes.{route_message_sound}

module _ {ℓ} {M : Type ℓ} where
  removed_no_edge :
      (net : Network M) (id a : String)
      → IsWellFormed net
      → contains id (targets_of (removed net id) a) ≡ false
  unfolding contains
  removed_no_edge net id a w = ground (
    arith,
    ap (contains id) (targets_of-removed net id a),
    contains-forget id id (targets_of net a) (w.distinct a),
    eq_iff id id,
  )

  removed_no_route :
      (net : Network M) (id from to : String) (path : List String)
      → IsWellFormed net
      → route_message (removed net id) from to ≡ some path
      → contains id path ≡ false
  unfolding contains
  removed_no_route net id from to path w h =
      let ((f, t), route) = route_message_sound (removed net id) from to path h in
      elim route [
        | inl (e, d) ↦ rw e (
            ground (
              arith,
              eq_iff from id,
              eq_iff to id,
              eq_iff id id,
              Dict.has-delete id from net.nodes,
              Dict.has-delete id to net.nodes,
              eq_iff id from,
              eq_iff id to,
            ))
        | inr (hop, e, d, first, second) ↦ rw e (
            ground (
              arith,
              eq_iff from id,
              eq_iff to id,
              eq_iff hop id,
              Dict.has-delete id from net.nodes,
              Dict.has-delete id to net.nodes,
              eq_iff id from,
              eq_iff id to,
              removed_no_edge net id from w,
            ))
      ]

  -- Once a node of a well-formed network is removed, no route starts at it, ends at it or passes
  -- through it, and no broadcast reaches it.
  pub remove_node_isolates :
      (net last : Network M) (id from to : String) (path : List String)
      → IsWellFormed net
      → remove_node net id ≡ ok (last, true)
      → (route_message last from to ≡ some path → contains id path ≡ false)
        × (contains id (broadcast_message last from) ≡ false)
  unfolding broadcast_message targets_of
  remove_node_isolates net last id from to path w e =
      let e' : last ≡ removed net id = ground (arith, sym (remove_node-eq net id w) ∙ e) in
      rw e' (removed_no_route net id from to path w, removed_no_edge net id from w)
