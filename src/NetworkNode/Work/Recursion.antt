-- ===== src/NetworkNode/Work/Recursion.antt =====
-- networknode.cpp: a package that has reached its node.
use qt_network_protocol.Prelude.{ℕ, suc, zero, ◌≡◌, refl, List, false, some, ==_iff, arith, reverse}
use qt_network_protocol.HostAddress.{HostAddress}
use qt_network_protocol.Node.Parse.{not_processed}
use qt_network_protocol.Router.{is_processed, update_route, drop_route}
use qt_network_protocol.Transport.{Transport}
use qt_network_protocol.NetworkNode.{NetworkNode, Base}
use qt_network_protocol.NetworkNode.Work.{
  out_of_fuel, save_route, parse_transport_data, work_with_transport_data,
}

module _ (base : Base) where
  -- A route that is saved does not change which packages are processed.
  pub is_processed-save_route :
      (id node : ℕ) (route : List HostAddress) (n : NetworkNode)
      → is_processed id (save_route base node route n).router ≡ is_processed id n.router
  unfolding is_processed save_route update_route drop_route
  is_processed-save_route id node route n = ground arith

  -- At the node that a package is for, when the package is not yet processed and the parent class
  -- leaves it alone, the handler calls itself through parsePackage without an end.
  pub work_with_transport_data_diverges :
      (fuel : ℕ) (from : HostAddress) (t : Transport) (n : NetworkNode)
      → ((m : NetworkNode) → base.parse_package t m ≡ (m, not_processed))
      → t.target_address ≡ n.node_id
      → is_processed t.package_id n.router ≡ false
      → work_with_transport_data base fuel (some from) t n ≡ out_of_fuel
  unfolding work_with_transport_data parse_transport_data save_route
  work_with_transport_data_diverges zero from t n parent at_target fresh = refl
  work_with_transport_data_diverges (suc fuel) from t n parent at_target fresh =
      let saved = save_route base t.sender_id (reverse t.route) n in
      let kept : t.target_address ≡ saved.node_id = at_target in
      let again = work_with_transport_data_diverges fuel from t saved parent kept (
        ground
          (arith, fresh, is_processed-save_route t.package_id t.sender_id (reverse t.route) n)) in
      ground (arith, at_target, fresh, parent saved, again, ==_iff t.target_address n.node_id)
