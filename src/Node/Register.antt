-- ===== src/Node/Register.antt =====
-- abstractnode.cpp: registerSocket and incomingTcp.
use qt_network_protocol.Prelude.{
  [], ◌∷◌, ◌++◌, Bool, true, false, Option, none, some, if◌then◌else◌, leb, lookup, insert,
}
use qt_network_protocol.HostAddress.{HostAddress, host_address_eq}
use qt_network_protocol.NodeInfo.{Socket, node_info, set_sct, set_is_local, is_valid}
use qt_network_protocol.Node.State.{Node, check_confirmend, connections_count, is_banned}

-- `clientAddress` as a bool
abbrev pub is_some : Option HostAddress → Bool
is_some none = false
is_some (some _) = true

-- The address under which the socket's peer is kept.
unfoldable pub cli_address : Socket → Option HostAddress → HostAddress
cli_address socket none = socket.peer
cli_address socket (some a) = a

-- AbstractNode::registerSocket
unfoldable pub register_socket : Socket → Option HostAddress → Node → Node × Bool
register_socket socket client_address n =
    let address = cli_address socket client_address in
    if leb n.max_pending_connections (connections_count n)
    then (n, false)
    else elim (lookup address n.connections) [
      | some info ↦
          let renewed = set_is_local (is_some client_address) (set_sct (some socket) info) in
          (record n { connections = insert address renewed n.connections }, is_valid renewed)
      | none ↦
          let info =
            set_is_local (is_some client_address) (node_info (some socket) (some address)) in
          (
            record n {
              connections = insert address info n.connections;
              timers = n.timers ++ (check_confirmend address ∷ []);
            },
            true,
          )
    ]

-- AbstractNode::incomingTcp: the job for a socket whose descriptor Qt could adopt.
unfoldable pub incoming_tcp : Socket → Node → Node × Bool
incoming_tcp socket n = if is_banned socket n then (n, false) else register_socket socket none n
