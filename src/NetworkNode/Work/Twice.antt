-- ===== src/NetworkNode/Work/Twice.antt =====
-- networknode.cpp: a package that a node has passed on and that comes again.
use qt_network_protocol.Prelude.{
  ℕ, suc, ◌<◌, ◌≡◌, sym, ap, ◌∙◌, List, Bool, true, false, Option, ◌==◌, ==_iff, arith, reverse,
  drop, length, Option-cases, Bool-cases, inl, inr,
}
use qt_network_protocol.HostAddress.{HostAddress}
use qt_network_protocol.Node.Parse.{processed}
use qt_network_protocol.Router.{Router, is_processed, update_route, drop_route}
use qt_network_protocol.Router.Processed.{is_processed-add_procesed_package}
use qt_network_protocol.Transport.{
  Transport, index_of, strip, is_have_route, add_node_to_route, complete_route, set_route,
}
use qt_network_protocol.NetworkNode.{NetworkNode, Base, transport, send_to_node}
use qt_network_protocol.NetworkNode.Broadcast.{send_to_node-Unmoved}
use qt_network_protocol.NetworkNode.Work.Relay.{send_along-Unmoved}
use qt_network_protocol.NetworkNode.Work.{
  returned, save_route, finish, find_route, send_along, pass_on, relay, work_with_transport_data,
}

-- The operations on the route leave the id of the package.
package_id-set_route :
    (route : List HostAddress) (t : Transport)
    → (complete_route false (set_route route t).0).package_id ≡ t.package_id
unfolding set_route complete_route
package_id-set_route route t = ground arith

package_id-strip :
    (corrent own : HostAddress) (t : Transport) → (strip corrent own t).0.package_id ≡ t.package_id
unfolding strip
package_id-strip corrent own t = ground arith

module _ (base : Base) where
  package_id-find_route :
      (t : Transport) (n : NetworkNode) → (find_route base t n).package_id ≡ t.package_id
  unfolding find_route set_route complete_route
  package_id-find_route t n = ground arith

  length-save_route :
      (node : ℕ) (route : List HostAddress) (n : NetworkNode)
      → length (save_route base node route n).router.processed_packages
        ≡ length n.router.processed_packages
  unfolding save_route update_route drop_route
  length-save_route node route n = ground arith

  finish-is_processed :
      (t : Transport) (n m : NetworkNode)
      → length n.router.processed_packages < base.transport_packages_cache
      → finish base t n ≡ returned m processed
      → is_processed t.package_id m.router ≡ true
  unfolding finish
  finish-is_processed t n m room e =
      let added =
        is_processed-add_procesed_package base.route_cache_limit base.transport_packages_cache
          base.now t.package_id t.package_id n.router room in
      ground (arith, e, added, ==_iff t.package_id t.package_id)

  pass_on-is_processed :
      (t : Transport) (valid : Bool) (n m : NetworkNode)
      → length n.router.processed_packages < base.transport_packages_cache
      → pass_on base t valid n ≡ returned m processed
      → is_processed t.package_id m.router ≡ true
  unfolding pass_on
  pass_on-is_processed t valid n m room e = elim (Option-cases (index_of n.address t.route)) [
    | inl lost ↦ absurd (ground (arith, lost, e))
    | inr (index, place) ↦
        let from_here = drop index t.route in
        let saved = save_route base t.sender_id (reverse from_here) n in
        let cut = complete_route false (set_route from_here t).0 in
        let sent = send_to_node base (transport cut) cut.target_address saved in
        let kept = send_to_node-Unmoved base cut cut.target_address saved in
        let size = length-save_route t.sender_id (reverse from_here) n in
        let first : length saved.router.processed_packages < base.transport_packages_cache =
          omega (arith, size, room) in
        let second : length sent.0.router.processed_packages < base.transport_packages_cache =
          omega (arith, ap (λ (r : Router). length r.processed_packages) kept.router, first) in
        elim (Bool-cases valid) [
          | inl v ↦ finish-is_processed t saved m first (ground (arith, place, v, e))
          | inr v ↦ elim (Bool-cases (sent.1 == 0)) [
            | inl z ↦ absurd (ground (arith, place, v, z, e))
            | inr z ↦
                ap (λ id. is_processed id m.router) (sym (package_id-set_route from_here t))
                ∙ finish-is_processed cut sent.0 m second (ground (arith, place, v, z, e))
          ]
        ]
  ]

  routed-is_processed :
      (from : HostAddress) (t routed : Transport) (n m : NetworkNode)
      → length n.router.processed_packages < base.transport_packages_cache
      → routed.package_id ≡ t.package_id
      → (let stripped = (strip from n.address routed).0 in
          let sent = send_along base stripped (reverse stripped.route) n in
          pass_on base stripped sent.1 sent.0 ≡ returned m processed)
      → is_processed t.package_id m.router ≡ true
  routed-is_processed from t routed n m room same e =
      let stripped = (strip from n.address routed).0 in
      let sent = send_along base stripped (reverse stripped.route) n in
      let kept = send_along-Unmoved base stripped (reverse stripped.route) n in
      let room' : length sent.0.router.processed_packages < base.transport_packages_cache =
        omega (arith, ap (λ (r : Router). length r.processed_packages) kept.router, room) in
      ap (λ id. is_processed id m.router) (sym (package_id-strip from n.address routed ∙ same))
      ∙ pass_on-is_processed stripped sent.1 sent.0 m room' e

  relay-is_processed :
      (sender : Option HostAddress) (t : Transport) (n m : NetworkNode)
      → length n.router.processed_packages < base.transport_packages_cache
      → relay base sender t n ≡ returned m processed
      → is_processed t.package_id m.router ≡ true
  unfolding relay add_node_to_route
  relay-is_processed sender t n m room e =
      let routed = find_route base t n in
      let same = package_id-find_route t n in
      elim (Bool-cases (is_have_route base.q_hash routed)) [
        | inl has ↦ elim (Option-cases sender) [
          | inl nobody ↦ absurd (ground (arith, has, nobody, e))
          | inr (from, known) ↦
              routed-is_processed from t routed n m room same (ground (arith, has, known, e))
        ]
        | inr bare ↦
            ap (λ id. is_processed id m.router) (sym same)
            ∙ pass_on-is_processed (add_node_to_route n.address routed) false n m room
                (ground (arith, bare, e))
      ]

  -- A package that a node has passed on, with room in the table of the processed ones, is neither
  -- sent nor changes anything when it comes again, from whomever and on whatever route.
  pub work_with_transport_data_twice :
      (fuel fuel' : ℕ) (sender sender' : Option HostAddress) (t t' : Transport) (n m : NetworkNode)
      → (t.target_address == n.node_id) ≡ false
      → length n.router.processed_packages < base.transport_packages_cache
      → work_with_transport_data base (suc fuel) sender t n ≡ returned m processed
      → t'.package_id ≡ t.package_id
      → work_with_transport_data base (suc fuel') sender' t' m ≡ returned m processed
  unfolding work_with_transport_data
  work_with_transport_data_twice fuel fuel' sender sender' t t' n m not_target room e same =
      elim (Bool-cases (is_processed t.package_id n.router)) [
        | inl old ↦ ground (arith, old, e, same, ap (λ id. is_processed id m.router) same)
        | inr fresh ↦
            let known =
              relay-is_processed sender t n m room (ground (arith, fresh, not_target, e)) in
            ground (arith, known, same, ap (λ id. is_processed id m.router) same)
      ]
