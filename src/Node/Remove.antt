-- ===== src/Node/Remove.antt =====
-- abstractnode.cpp: removeNode, handleForceRemoveNode and checkConfirmendOfNode.
use qt_network_protocol.Prelude.{
  [], ◌∷◌, ◌++◌, Bool, true, false, not, none, some, if◌then◌else◌, lookup, ◌==◌,
}
use qt_network_protocol.HostAddress.{HostAddress, host_address_eq}
use qt_network_protocol.NodeInfo.{remove_socket, status_eq, confirmed}
use qt_network_protocol.Qt.{Qt, Network}
use qt_network_protocol.Data.{close_connection, create}
use qt_network_protocol.Node.State.{Node, Timer, check_confirmend, force_remove, update_info}
use qt_network_protocol.Node.Send.{send_data}

module _ (qt : Qt) (net : Network) where
  -- AbstractNode::removeNode
  unfoldable pub remove_node : HostAddress → Node → Node × Bool
  remove_node address n = elim (lookup address n.connections) [
    | none ↦ (n, false)
    | some i ↦
        if i.is_local
        then (update_info address remove_socket n, true)
        else (let timed = record n { timers = n.timers ++ (force_remove address ∷ []) } in
            let (n', hash) = send_data qt net (create close_connection) address none timed in
            (n', not (hash == 0)))
  ]

  -- AbstractNode::handleForceRemoveNode
  unfoldable pub handle_force_remove_node : HostAddress → Node → Node
  handle_force_remove_node address n = update_info address remove_socket n

  -- AbstractNode::checkConfirmendOfNode for the peer kept under a key.
  unfoldable pub check_confirmend_of_node : HostAddress → Node → Node
  check_confirmend_of_node key n = elim (lookup key n.connections) [
    | none ↦ n
    | some i ↦ if not (status_eq i.status confirmed) then (remove_node i.network_address n).0 else n
  ]

  -- What a timer does when it fires.
  unfoldable pub fire : Timer → Node → Node
  fire (check_confirmend key) n = check_confirmend_of_node key n
  fire (force_remove address) n = handle_force_remove_node address n
