-- ===== src/NetworkNode/Work/Relay.antt =====
-- networknode.cpp: a package that a node passes on.
use qt_network_protocol.Prelude.{
  length-append, ℕ, suc, ◌+◌, ◌≤◌, ◌<◌, ◌≡◌, ◌≢◌, append_assoc, append-nil, subst, sym, ==_iff,
  refl, ap, ◌∙◌, List, [], ◌∷◌, ◌++◌, true, false, none, some, ◌==◌, arith, reverse, length,
  drop-append, Dict,
}
use qt_network_protocol.HostAddress.{HostAddress, equal, equal_iff}
use qt_network_protocol.Node.Parse.{error, processed}
use qt_network_protocol.Router.{
  Router, is_processed, has_route, get_route, update_route, drop_route, add_procesed_package,
  drop_processed,
}
use qt_network_protocol.Router.Route.{get_route-update_route}
use qt_network_protocol.Router.Processed.{is_processed-add_procesed_package}
use qt_network_protocol.Transport.{
  Transport, has_address, index_of, is_have_route, add_node_to_route, complete_route, set_route,
  repeats,
}
use qt_network_protocol.Transport.Strip.{index_of-none, strip-none, strip-route}
use qt_network_protocol.NetworkNode.{
  NetworkNode, NetworkNodeInfo, Base, Message, transport, send_to, send_to_node, find_knowing,
}
use qt_network_protocol.NetworkNode.Broadcast.{
  Unmoved, send_to_node-Unmoved, send_to_node-broadcast, to_all, length-to_all,
}
use qt_network_protocol.NetworkNode.Work.Recursion.{is_processed-save_route}
use qt_network_protocol.NetworkNode.Work.{
  returned, undefined, save_route, finish, find_route, send_along, pass_on, relay,
  work_with_transport_data,
}

abbrev pub with_route : List HostAddress → Transport → Message
with_route route t = transport (record t { route = route })

-- The first place of an address behind others.
index_of-append :
    (a : HostAddress) (front behind : List HostAddress)
    → has_address a front ≡ false
    → index_of a (front ++ (a ∷ behind)) ≡ some (length front)
unfolding index_of has_address
index_of-append a [] behind h = ground (arith, equal_iff a a)
index_of-append a (x ∷ front) behind h =
    ground (arith, h, index_of-append a front behind (ground (arith, h)))

module _ (base : Base) where
  pub send_along-Unmoved :
      (t : Transport) (route : List HostAddress) (n : NetworkNode)
      → Unmoved n (send_along base t route n).0
  unfolding send_along send_to
  send_along-Unmoved t [] n = record { router = refl; address = refl }
  send_along-Unmoved t (it ∷ route) n =
      let later = send_along-Unmoved t route (send_to base (transport t) it n).0 in
      record { router = ground (arith, later.router); address = ground (arith, later.address) }

  -- A node that a package with a complete route reaches, and that is neither its target nor on the
  -- route, runs into undefined behaviour, unless it has processed the package.
  pub work_with_transport_data_off_route :
      (fuel : ℕ) (from : HostAddress) (t : Transport) (n : NetworkNode)
      → is_processed t.package_id n.router ≡ false
      → (t.target_address == n.node_id) ≡ false
      → is_have_route base.q_hash t ≡ true
      → has_address n.address t.route ≡ false
      → work_with_transport_data base (suc fuel) (some from) t n ≡ undefined
  unfolding work_with_transport_data relay find_route pass_on
  work_with_transport_data_off_route fuel from t n fresh not_target routed off =
      let same = strip-none from n.address t off in
      let sent = send_along-Unmoved t (reverse t.route) n in
      let place = index_of-none n.address t.route off in
      let lost : index_of (send_along base t (reverse t.route) n).0.address t.route ≡ none =
        ap (λ a. index_of a t.route) sent.address ∙ place in
      ground (arith, fresh, not_target, routed, same, lost)

  -- The addresses do not take the package: sendData returns 0 for each, in this order.
  abbrev pub Refuse : Message → List HostAddress → List (HostAddress × Message) → Type 0
  Refuse m [] log = Unit {0}
  Refuse m (a ∷ rest) log = (base.sends log a m ≡ 0) × Refuse m rest (log ++ ((a, m) ∷ []))

  unfoldable pub each : Message → List HostAddress → List (HostAddress × Message)
  each m [] = []
  each m (a ∷ rest) = (a, m) ∷ each m rest

  -- The loop of sendAlong ends at the first address that takes the package.
  send_along-first :
      (t : Transport) (refusing : List HostAddress) (taker : HostAddress) (rest : List HostAddress)
      (n : NetworkNode)
      → Refuse (transport t) refusing n.sent
      → base.sends (n.sent ++ each (transport t) refusing) taker (transport t) ≢ 0
      → send_along base t (refusing ++ (taker ∷ rest)) n
        ≡ (record n { sent = n.sent ++ each (transport t) (refusing ++ (taker ∷ [])) }, true)
  unfolding send_along send_to each
  send_along-first t [] taker rest n r h = ground (arith, h, append-nil n.sent)
  send_along-first t (a ∷ refusing) taker rest n r h =
      let m = transport t in
      let n' : NetworkNode = record n { sent = n.sent ++ ((a, m) ∷ []) } in
      let shift = append_assoc n.sent ((a, m) ∷ []) (each m refusing) in
      let shift' = append_assoc n.sent ((a, m) ∷ []) (each m (refusing ++ (taker ∷ []))) in
      let later =
        send_along-first t refusing taker rest n' r.1
          (subst (λ log. base.sends log taker m ≢ 0) (sym shift) h) in
      ground (arith, r.0, later, shift')

  router-save_route :
      (node : ℕ) (route : List HostAddress) (n : NetworkNode)
      → (save_route base node route n).router.processed_packages ≡ n.router.processed_packages
  unfolding save_route update_route drop_route
  router-save_route node route n = ground arith

  get_route-add_procesed_package :
      (id key : ℕ) (r : Router)
      → get_route key
          (add_procesed_package base.route_cache_limit base.transport_packages_cache base.now id r)
        ≡ get_route key r
  unfolding get_route add_procesed_package drop_processed
  get_route-add_procesed_package id key r = ground arith

  -- What finish and save_route leave in the router: the route, and the mark.
  finish-save_route :
      (t : Transport) (node : ℕ) (route : List HostAddress) (n : NetworkNode)
      → has_route node n.router ≡ false
      → length n.router.processed_packages ≤ base.route_cache_limit
      → length n.router.processed_packages < base.transport_packages_cache
      → (after : NetworkNode) × (finish base t (save_route base node route n)
          ≡ returned after processed)
        × (after.sent ≡ n.sent)
        × (get_route node after.router ≡ route)
        × (is_processed t.package_id after.router ≡ true)
  unfolding finish save_route
  finish-save_route t node route n new few room =
      let saved = save_route base node route n in
      let limit = base.route_cache_limit in
      let cache = base.transport_packages_cache in
      let same = router-save_route node route n in
      (
        record saved {
          router = add_procesed_package limit cache base.now t.package_id saved.router;
        },
        refl,
        refl,
        get_route-add_procesed_package t.package_id node saved.router
            ∙ ground (
              arith,
              new,
              ==_iff node node,
              get_route-update_route limit cache base.now node node route n.router few,
            ),
        ground (
          arith,
          ==_iff t.package_id t.package_id,
          is_processed-add_procesed_package limit cache base.now t.package_id t.package_id
              saved.router (subst (λ ids. length ids < cache) (sym same) room),
        ),
      )

  -- A node on the complete route of a package, behind the sender, with room in its router and no
  -- route to the package's origin: the route loses the sender and what is between the two, and the
  -- package with this route is sent to the addresses of the new route, from its end on, up to the
  -- first that takes it. If there is one, the package counts as processed, by the result and in the
  -- router, and the route to the origin is the new route from this node on, turned around.
  pub work_with_transport_data_on_route :
      (fuel : ℕ) (from : HostAddress) (front between behind : List HostAddress) (t : Transport)
      (refusing : List HostAddress) (taker : HostAddress) (rest : List HostAddress)
      (n : NetworkNode)
      → is_processed t.package_id n.router ≡ false
      → (t.target_address == n.node_id) ≡ false
      → is_have_route base.q_hash t ≡ true
      → t.route ≡ front ++ (from ∷ (between ++ (n.address ∷ behind)))
      → has_address from front ≡ false
      → has_address n.address front ≡ false
      → has_address from between ≡ false
      → has_address n.address between ≡ false
      → equal n.address from ≡ false
      → reverse (front ++ (n.address ∷ behind)) ≡ refusing ++ (taker ∷ rest)
      → Refuse (with_route (front ++ (n.address ∷ behind)) t) refusing n.sent
      → base.sends
          (n.sent ++ each (with_route (front ++ (n.address ∷ behind)) t) refusing)
          taker
          (with_route (front ++ (n.address ∷ behind)) t)
        ≢ 0
      → has_route t.sender_id n.router ≡ false
      → length n.router.processed_packages ≤ base.route_cache_limit
      → length n.router.processed_packages < base.transport_packages_cache
      → (after : NetworkNode) × (work_with_transport_data base (suc fuel) (some from) t n
          ≡ returned after processed)
        × (after.sent
            ≡ n.sent
              ++ each (with_route (front ++ (n.address ∷ behind)) t) (refusing ++ (taker ∷ [])))
        × (get_route t.sender_id after.router ≡ reverse (n.address ∷ behind))
        × (is_processed t.package_id after.router ≡ true)
  unfolding work_with_transport_data relay find_route pass_on
  work_with_transport_data_on_route fuel from front between behind t refusing taker rest n fresh
        not_target routed route ff fo bf bo apart order refuse takes new few room =
      let stripped = record t { route = front ++ (n.address ∷ behind) } in
      let same = strip-route from n.address front between behind t route ff fo bf bo apart in
      let m = transport stripped in
      let sent : NetworkNode = record n { sent = n.sent ++ each m (refusing ++ (taker ∷ [])) } in
      let along : send_along base stripped (reverse stripped.route) n ≡ (sent, true) =
        ap (λ (l : List HostAddress). send_along base stripped l n) order
        ∙ send_along-first stripped refusing taker rest n refuse takes in
      let place = index_of-append n.address front behind fo in
      let dropped = drop-append (length front) front (n.address ∷ behind) refl in
      let back = reverse (n.address ∷ behind) in
      let (after, done, kept, way, marked) =
        finish-save_route stripped t.sender_id back sent new few room in
      let result : work_with_transport_data base (suc fuel) (some from) t n
          ≡ finish base stripped (save_route base t.sender_id back sent) =
        ground (arith, fresh, not_target, routed, same, along, place, dropped) in
      (after, result ∙ done, kept, way, marked)

  -- A package without a route, for a node to which neither the router nor a peer leads, is given to
  -- every peer; where the last of them refuses it, the handler fails, and the package counts as
  -- not processed, whatever the others did.
  pub relay-broadcast :
      (sender : HostAddress) (t : Transport) (front : Dict HostAddress NetworkNodeInfo)
      (last : HostAddress) (info : NetworkNodeInfo) (n : NetworkNode)
      → n.connections ≡ front ++ ((last, info) ∷ [])
      → find_knowing t.target_address n.connections ≡ none
      → is_processed t.package_id n.router ≡ false
      → is_have_route base.q_hash t ≡ false
      → has_route t.target_address n.router ≡ false
      → has_address n.address t.route ≡ false
      → ((m : Message) (log : List (HostAddress × Message)) → base.sends log last m ≡ 0)
      → (after : NetworkNode) × (relay base (some sender) t n ≡ returned after error)
        × (length after.sent ≡ length n.sent + length n.connections)
        × (is_processed t.package_id after.router ≡ false)
  unfolding relay find_route pass_on save_route add_node_to_route complete_route set_route repeats
      has_address
  relay-broadcast sender t front last info n peers unknown fresh no_route no_way off refuses =
      let added = add_node_to_route n.address t in
      let cut = complete_route false (set_route (n.address ∷ []) added).0 in
      let saved = save_route base t.sender_id (reverse (n.address ∷ [])) n in
      let place = index_of-append n.address t.route [] off in
      let rest = drop-append (length t.route) t.route (n.address ∷ []) refl in
      let sent =
        send_to_node-broadcast base cut t.target_address front last info saved peers unknown
          (refuses (transport cut)) in
      let kept = send_to_node-Unmoved base cut t.target_address saved in
      let after = (send_to_node base (transport cut) t.target_address saved).0 in
      let old =
        is_processed-save_route base t.package_id t.sender_id (reverse (n.address ∷ [])) n in
      let now_router : is_processed t.package_id after.router
          ≡ is_processed t.package_id saved.router =
        ap (is_processed t.package_id) kept.router in
      (
        after,
        ground (arith, no_route, no_way, place, rest, sent.0),
        ap length sent.1
            ∙ omega (
              arith,
              length-append n.sent (to_all (transport cut) n.connections),
              length-to_all (transport cut) n.connections,
            ),
        now_router ∙ old ∙ fresh,
      )
