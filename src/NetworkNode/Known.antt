-- ===== src/NetworkNode/Known.antt =====
-- networknode.cpp: the table of confirmed peers by their node id.
use qt_network_protocol.Prelude.{
  ◌≡◌, true, none, some, ==_iff, arith, nat_eq, lookup, insert, lookup-insert, lookup-remove,
}
use qt_network_protocol.HostAddress.{HostAddress, host_address_eq}
use qt_network_protocol.NetworkNode.{
  NetworkNode, NetworkNodeInfo, node_confirmend, node_disconnected,
}

-- When two connected peers have one node id, that the table does not have: the first to be confirmed
-- is entered, the second is to be removed, and the removal of the second takes the id of the first,
-- which is still connected, out of the table.
pub node_disconnected-node_confirmend :
    (first second : HostAddress) (info other : NetworkNodeInfo) (n : NetworkNode)
    → lookup first n.connections ≡ some info
    → lookup second n.connections ≡ some other
    → other.self_id ≡ info.self_id
    → lookup info.self_id n.known_nodes ≡ none
    → let one = node_confirmend first n in
      let two = node_confirmend second one.0 in
      (lookup info.self_id one.0.known_nodes ≡ some first)
      × (two.1 ≡ true)
      × (lookup info.self_id (node_disconnected second two.0).known_nodes ≡ none)
      × (lookup first (node_disconnected second two.0).connections ≡ some info)
unfolding node_confirmend node_disconnected
node_disconnected-node_confirmend first second info other n at_first at_second same fresh =
    let id = info.self_id in
    let stored = lookup-insert id id first n.known_nodes in
    let entered = insert id first n.known_nodes in
    let dropped = lookup-remove id id entered in
    (
      ground (arith, at_first, fresh, stored, ==_iff id id),
      ground (arith, at_first, at_second, fresh, same, stored, ==_iff id id),
      ground (arith, at_first, at_second, fresh, same, stored, dropped, ==_iff id id),
      ground (arith, at_first, at_second, fresh, same, stored, ==_iff id id),
    )
