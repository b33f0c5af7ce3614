-- ===== src/Node/Limit.antt =====
-- registerSocket: the limit on connections, and what becomes of banned peers.
use qt_network_protocol.Prelude.{
  suc, ◌≤◌, ◌<◌, ◌≡◌, Bool, true, false, [], ◌∷◌, Option, arith, Dict, some, insert, lookup,
  Option-cases, inl, inr,
}
use qt_network_protocol.HostAddress.{HostAddress, host_address_eq}
use qt_network_protocol.NodeInfo
use qt_network_protocol.NodeInfo.{NodeInfo, Socket, node_info, set_sct, set_is_local}
use qt_network_protocol.NodeInfo.Status.{sct-set_sct}
use qt_network_protocol.Node.State.{Node, count_if, connections_count, is_banned}
use qt_network_protocol.Node.Register.{register_socket, incoming_tcp, cli_address, is_some}
use qt_network_protocol.Node.Trust.{IsExpelled}

count_if-insert :
    (p : NodeInfo → Bool) (k : HostAddress) (i : NodeInfo) (d : Dict HostAddress NodeInfo)
    → count_if p (insert k i d) ≤ suc (count_if p d)
unfolding count_if insert
count_if-insert p k i [] = ground arith
count_if-insert p k i ((a, j) ∷ d) = ground (arith, count_if-insert p k i d)

-- While no more peers are connected than the node may have, registering a socket never takes the
-- number of connected peers above that limit.
pub register_socket_limit :
    (s : Socket) (client : Option HostAddress) (n : Node)
    → connections_count n ≤ n.max_pending_connections
    → connections_count (register_socket s client n).0 ≤ n.max_pending_connections
unfolding register_socket connections_count
register_socket_limit s client n h =
    let key = cli_address s client in
    let grow = λ (i : NodeInfo). count_if-insert NodeInfo.is_connected key i n.connections in
    elim (Option-cases (lookup key n.connections)) [
      | inl fresh ↦
          ground
            (arith, fresh, grow (set_is_local (is_some client) (node_info (some s) (some key))))
      | inr (i, known) ↦
          ground (arith, known, grow (set_is_local (is_some client) (set_sct (some s) i)))
    ]

-- A ban does not keep a peer out: a peer that was banned has lost its socket, isBanned asks for one,
-- and so a new connection from the banned address is accepted while the node has room.
pub incoming_tcp-expelled :
    (s : Socket) (n : Node)
    → IsExpelled s.peer n
    → connections_count n < n.max_pending_connections
    → (is_banned s n ≡ false) × ((incoming_tcp s n).1 ≡ true)
unfolding incoming_tcp is_banned register_socket cli_address NodeInfo.is_valid set_is_local
incoming_tcp-expelled s n x h = ground (arith, x.known, x.no_socket, sct-set_sct (some s) x.info)
