-- ===== src/Node/Send.antt =====
-- abstractnode.cpp: sendPackage, sendData, badRequest and ping.
use qt_network_protocol.Prelude.{
  ℕ, [], ◌∷◌, ◌++◌, Bool, true, false, not, Option, none, some, if◌then◌else◌, lookup, ℤ, ◌==◌,
}
use qt_network_protocol.HostAddress.{HostAddress, host_address_eq}
use qt_network_protocol.NodeInfo.{NodeInfo, Socket}
use qt_network_protocol.Package.{Package, Header, is_valid, to_bytes}
use qt_network_protocol.Qt.{Text, Qt, Network}
use qt_network_protocol.Data.{Data, bad_request, ping, create, prepare_to_send, to_package}
use qt_network_protocol.Node.State.{Node, ban, change_trust}

module _ (qt : Qt) (net : Network) where
  -- AbstractNode::sendPackage, and DataSender::sendPackagePrivate that writes the bytes.
  unfoldable pub send_package : Package → Option Socket → Node → Node × Bool
  send_package pkg none n = (n, false)
  send_package pkg (some target) n =
      if not (is_valid qt.q_hash pkg)
      then (n, false)
      else if not (net.socket_is_valid target.id)
      then (n, false)
      else if not (net.wait_for_connected target.id)
      then (n, false)
      else if not (net.writes_all target.id (to_bytes pkg))
      then (n, false)
      else (record n { sent = n.sent ++ ((target.id, to_bytes pkg) ∷ []) }, true)

  -- The end of sendData: a package, if the object gave one, for the socket of the client.
  unfoldable pub send_converted : Option Package → NodeInfo → Node → Node × ℕ
  send_converted none client n = (n, 0)
  send_converted (some pkg) client n =
      let (n', done) = send_package pkg client.sct n in
      if not done then (n', 0) else (n', pkg.hdr.hash)

  -- AbstractNode::sendData of a const object: the hash of the package sent, or 0.
  unfoldable pub send_data_const : Data → HostAddress → Option Header → Node → Node × ℕ
  send_data_const resp addere req n = elim (lookup addere n.connections) [
    | none ↦ (n, 0)
    | some client ↦ elim req [
      | none ↦ send_converted (to_package qt resp 0) client n
      | some hdr ↦ send_converted (to_package qt resp hdr.hash) client n
    ]
  ]

  -- AbstractNode::sendData
  unfoldable pub send_data : Data → HostAddress → Option Header → Node → Node × ℕ
  send_data resp addere req n =
      let (prepared, ready) = prepare_to_send qt resp in
      if not ready then (n, 0) else send_data_const prepared addere req n

  -- AbstractNode::badRequest; the answer's text is of no consequence for the node.
  unfoldable pub bad_request_to : HostAddress → Header → ℕ → Text → ℤ → Node → Node
  bad_request_to address req code msg diff n =
      let (n', changed) = change_trust address diff n in
      if not changed
      then ban address n'
      else (send_data (create (bad_request code msg)) address (some req) n').0

  -- AbstractNode::ping
  unfoldable pub ping_node : HostAddress → Node → Node × Bool
  ping_node address n =
      let (n', hash) = send_data (create (ping false)) address none n in (n', not (hash == 0))
