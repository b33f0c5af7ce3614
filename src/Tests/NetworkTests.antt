-- ===== src/Tests/NetworkTests.antt =====
-- The network node at concrete inputs.
use qt_network_protocol.Prelude.{
  ◌≡◌, refl, [], ◌∷◌, true, some, none, nat_eq, lookup, insert, set_insert, arith, ℕ, if◌then◌else◌,
  ◌==◌, member, contains,
}
use qt_network_protocol.HostAddress.{HostAddress, host_address_eq, equal}
use qt_network_protocol.Node.Parse.{not_processed, processed}
use qt_network_protocol.Package.{is_valid}
use qt_network_protocol.Router.{
  Router, is_processed, has_route, get_route, update_route, add_procesed_package, time_insert,
}
use qt_network_protocol.Transport.{
  Transport, strip, strip_bounds, erase, index_of, has_address, is_have_route, transport_is_valid,
}
use qt_network_protocol.NetworkNode.{
  NetworkNode, NetworkNodeInfo, Base, send_to, send_to_node, transport,
}
use qt_network_protocol.NetworkNode.Work.{
  returned, undefined, out_of_fuel, relay, find_route, pass_on, finish, save_route, send_along,
  work_with_transport_data,
}
use qt_network_protocol.NetworkNode.Work.Recursion.{work_with_transport_data_diverges}
use qt_network_protocol.NetworkNode.Work.Relay.{
  work_with_transport_data_off_route, work_with_transport_data_on_route, with_route, each,
}
use qt_network_protocol.NetworkNode.Work.Twice.{work_with_transport_data_twice}
use qt_network_protocol.Tests.Samples.{qt, ping_package}

abbrev at : ℕ → HostAddress
at ip = record { ip = ip; port = 3090 }

-- A base whose sends succeed except to the address 30.
abbrev base : Base
base = record {
  sends = λ log address m. if address.ip == 30 then 0 else 5;
  parse_package = λ t n. (n, not_processed);
  package_id = λ p. 60;
  h16_transport_data = 11;
  q_hash = qt.q_hash;
  now = 100;
  route_cache_limit = 10;
  transport_packages_cache = 10;
}

abbrev router : Router
router = record {
  routes = [];
  routes_time_map = [];
  processed_packages = [];
  processed_packages_time_map = [];
}

abbrev info : NetworkNodeInfo
info = record { know_addresses = 4 ∷ []; self_id = 4 }

-- The node 1 at the address 10 with the peers 20 and 30.
abbrev node : NetworkNode
node = record {
  address = at 10;
  node_id = 1;
  connections = (at 20, info) ∷ (at 30, info) ∷ [];
  known_nodes = [];
  router = router;
  sent = [];
}

-- A package of the node 3 for the node 2.
abbrev carried : Transport
carried = record {
  cmd = 11;
  payload = ping_package;
  target_address = 2;
  route = at 40 ∷ at 20 ∷ at 50 ∷ at 10 ∷ at 60 ∷ [];
  package_id = 70;
  sender_id = 3;
  route_is_complete = true;
}

work_with_transport_data_diverges_example :
    work_with_transport_data base 50 (some (at 20)) (record carried { target_address = 1 }) node
    ≡ out_of_fuel
unfolding is_processed member
work_with_transport_data_diverges_example =
    work_with_transport_data_diverges base 50 (at 20) (record carried { target_address = 1 }) node
      (λ m. refl) refl refl

work_with_transport_data_off_route_example :
    work_with_transport_data base 1
      (some (at 20))
      (record carried { route = at 40 ∷ at 20 ∷ [] })
      node
    ≡ undefined
unfolding is_processed is_have_route transport_is_valid is_valid has_address equal member
work_with_transport_data_off_route_example =
    work_with_transport_data_off_route base 0 (at 20)
      (record carried { route = at 40 ∷ at 20 ∷ [] }) node refl refl refl refl

-- The last address of the route does not take the package.
abbrev longer : Transport
longer = record carried { route = at 40 ∷ at 20 ∷ at 50 ∷ at 10 ∷ at 60 ∷ at 30 ∷ [] }

work_with_transport_data_on_route_example :
    let m = with_route (at 40 ∷ at 10 ∷ at 60 ∷ at 30 ∷ []) longer in
    (after : NetworkNode) × (work_with_transport_data base 1 (some (at 20)) longer node
      ≡ returned after processed)
    × (after.sent ≡ (at 30, m) ∷ (at 60, m) ∷ [])
    × (get_route 3 after.router ≡ at 30 ∷ at 60 ∷ at 10 ∷ [])
    × (is_processed 70 after.router ≡ true)
unfolding is_processed is_have_route transport_is_valid is_valid has_address equal member each
    has_route contains lookup
work_with_transport_data_on_route_example =
    work_with_transport_data_on_route base 0 (at 20) (at 40 ∷ []) (at 50 ∷ []) (at 60 ∷ at 30 ∷ [])
      longer (at 30 ∷ []) (at 60) (at 10 ∷ at 40 ∷ []) node refl refl refl refl refl refl refl refl
      refl refl (refl, tt) (omega arith) refl (omega arith) (omega arith)

-- The node when it has sent the package to the end of its route.
abbrev passed : NetworkNode
passed = record node {
  router = record {
    routes = (3, at 60 ∷ at 10 ∷ []) ∷ [];
    routes_time_map = (100, 3) ∷ [];
    processed_packages = 70 ∷ [];
    processed_packages_time_map = (100, 70) ∷ [];
  };
  sent = (at 60, transport (record carried { route = at 40 ∷ at 10 ∷ at 60 ∷ [] })) ∷ [];
}

work_with_transport_data_twice_example :
    work_with_transport_data base 1 none (record carried { route = [] }) passed
    ≡ returned passed processed
unfolding work_with_transport_data relay find_route pass_on save_route finish send_along send_to
    index_of strip erase strip_bounds update_route add_procesed_package time_insert set_insert
    insert is_processed is_have_route transport_is_valid is_valid has_address equal send_to_node
    member contains lookup
work_with_transport_data_twice_example =
    work_with_transport_data_twice base 0 0 (some (at 20)) none carried
      (record carried { route = [] }) node passed refl (omega arith) refl refl
