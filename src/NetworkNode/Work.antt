-- ===== src/NetworkNode/Work.antt =====
-- networknode.cpp: workWithTransportData, with the part of parsePackage that calls it.
--
-- The two call each other; the fuel bounds the calls.
pub mod Recursion
pub mod Relay
pub mod Twice
use qt_network_protocol.Prelude.{
  ℕ, suc, zero, List, [], ◌∷◌, ◌++◌, Bool, true, false, ◌&&◌, not, Option, none, some,
  if◌then◌else◌, ◌==◌, drop, reverse,
}
use qt_network_protocol.HostAddress.{HostAddress}
use qt_network_protocol.Node.Parse.{ParserResult, error, not_processed, processed}
use qt_network_protocol.Router.{
  Router, get_route, has_route, is_processed, update_route, add_procesed_package,
}
use qt_network_protocol.Transport.{
  Transport, complete_route, index_of, set_route, add_node_to_route, strip, is_have_route,
}
use qt_network_protocol.NetworkNode.{NetworkNode, Base, Message, transport, send_to, send_to_node}

-- How a call ends: with a result; with QList::erase called on an interval that ends before it
-- begins, which is undefined; or not within the fuel.
pub data Outcome : Type 0 where
  returned : NetworkNode → ParserResult → Outcome
  undefined out_of_fuel : Outcome

module _ (base : Base) where
  -- Router::updateRoute and addProcesedPackage of the member _router
  unfoldable pub save_route : ℕ → List HostAddress → NetworkNode → NetworkNode
  save_route node route n = record n {
    router =
        update_route base.route_cache_limit base.transport_packages_cache base.now node route
          n.router;
  }

  unfoldable pub finish : Transport → NetworkNode → Outcome
  finish t n =
      returned
        (record n {
          router =
              add_procesed_package base.route_cache_limit base.transport_packages_cache base.now
                t.package_id n.router;
        })
        processed

  -- The loop that sends to the first available node of the route.
  unfoldable pub send_along : Transport → List HostAddress → NetworkNode → NetworkNode × Bool
  send_along t [] n = (n, false)
  send_along t (it ∷ route) n =
      let (n', hash) = send_to base (transport t) it n in
      let rest = send_along t route n' in if hash == 0 then rest else (n', true)

  -- The route that a package without one is given from the router.
  unfoldable pub find_route : Transport → NetworkNode → Transport
  find_route t n =
      if not (is_have_route base.q_hash t) && has_route t.target_address n.router
      then (set_route (t.route ++ (n.address ∷ get_route t.target_address n.router)) t).0
      else t

  -- From the saving of the route on.
  unfoldable pub pass_on : Transport → Bool → NetworkNode → Outcome
  pass_on t route_is_valid n = elim (index_of n.address t.route) [
    | none ↦ undefined
    | some index ↦
        let from_here = drop index t.route in
        let saved = save_route t.sender_id (reverse from_here) n in
        let cut = complete_route false (set_route from_here t).0 in
        let (n', hash) = send_to_node base (transport cut) cut.target_address saved in
        if route_is_valid
        then finish t saved
        else if hash == 0
        then returned n' error
        else finish cut n'
  ]

  -- From the search of a route on.
  unfoldable pub relay : Option HostAddress → Transport → NetworkNode → Outcome
  relay sender t n =
      let routed = find_route t n in
      if is_have_route base.q_hash routed
      then elim sender [
        | none ↦ returned n error
        | some from ↦
            let stripped = (strip from n.address routed).0 in
            let (n', found) = send_along stripped (reverse stripped.route) n in
            pass_on stripped found n'
      ]
      else pass_on (add_node_to_route n.address routed) false n

  -- NetworkNode::parsePackage for a TransportData, that calls `work`
  unfoldable pub parse_transport_data :
      (NetworkNode → Outcome) → Option HostAddress → Transport → NetworkNode → Outcome
  parse_transport_data work sender t n =
      let (n', result) = base.parse_package t n in
      elim result [
        | not_processed ↦ elim sender [ none ↦ returned n' error | some _ ↦ work n' ]
        | r ↦ returned n' r
      ]

  -- NetworkNode::workWithTransportData
  unfoldable pub work_with_transport_data :
      ℕ → Option HostAddress → Transport → NetworkNode → Outcome
  work_with_transport_data zero sender t n = out_of_fuel
  work_with_transport_data (suc fuel) sender t n =
      let again = work_with_transport_data fuel sender t in
      if is_processed t.package_id n.router
      then returned n processed
      else if t.target_address == n.node_id
      then parse_transport_data again sender t (save_route t.sender_id (reverse t.route) n)
      else relay sender t n
