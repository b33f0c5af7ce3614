-- ===== src/NetworkNode.antt =====
-- Heart/NetworkSpace/networknode.h, networknode.cpp and networknodeinfo.*: a node that carries
-- packages for other nodes of the network.
--
-- `connections` are the peers by address, with what NetworkNodeInfo adds to a peer, in the order of
-- the loops; `known_nodes` is the member _connections. What the node inherits is the record Base.
-- `sent` lists the packages given to sendData with an address, also those that were not sent.
pub mod Work
pub mod Known
pub mod Broadcast
pub mod Objects
use qt_network_protocol.Prelude.{
  ℕ, ◌+◌, ◌%◌, ◌^◌, List, [], ◌∷◌, ◌++◌, Bool, true, false, not, Option, none, some, Dict, nat_eq,
  lookup, insert, remove, IdSet, member, set_insert, if◌then◌else◌, ◌==◌,
}
use qt_network_protocol.HostAddress.{HostAddress, host_address_eq}
use qt_network_protocol.Package.{Package}
use qt_network_protocol.Node.Parse.{ParserResult}
use qt_network_protocol.Router.{Router, get_route}
use qt_network_protocol.Transport.{Transport, set_route}

-- NetworkNodeInfo
pub record NetworkNodeInfo : Type 0 where
  pub know_addresses : IdSet
  pub self_id : ℕ

-- A package that is sent: the source's dynamic type is TransportData or another one, with what
-- AbstractData::toPackage gives of it.
pub data Message : Type 0 where
  transport : Transport → Message
  plain : Option Package → Message

pub record NetworkNode : Type 0 where
  -- AbstractNode::address
  pub address : HostAddress
  -- NetworkNode::nodeId
  pub node_id : ℕ
  pub connections : Dict HostAddress NetworkNodeInfo
  pub known_nodes : Dict ℕ HostAddress
  pub router : Router
  pub sent : List (HostAddress × Message)

-- The functions of the classes above, and of Qt, that the node calls.
pub record Base : Type 0 where
  -- The hash that AbstractNode::sendData returns for an address, after what was sent before.
  pub sends : List (HostAddress × Message) → HostAddress → Message → ℕ
  -- DataBaseNode::parsePackage for a TransportData
  pub parse_package : Transport → NetworkNode → NetworkNode × ParserResult
  -- The id that TransportData::setData makes of a package and the time.
  pub package_id : Package → ℕ
  pub h16_transport_data : ℕ
  pub q_hash : List ℕ → ℕ
  -- The current second, and the limits of config.h.
  pub now : ℕ
  pub route_cache_limit : ℕ
  pub transport_packages_cache : ℕ

-- NetworkNodeInfo::isKnowAddress, setSelfId and addKnowAddresses
unfoldable pub is_know_address : ℕ → NetworkNodeInfo → Bool
is_know_address id info = member id info.know_addresses

unfoldable pub set_self_id : ℕ → NetworkNodeInfo → NetworkNodeInfo
set_self_id self_id info = record info {
  self_id = self_id;
  know_addresses = set_insert self_id info.know_addresses;
}

unfoldable pub add_know_addresses : IdSet → NetworkNodeInfo → NetworkNodeInfo
add_know_addresses [] info = info
add_know_addresses (id ∷ ids) info =
    add_know_addresses ids (record info { know_addresses = set_insert id info.know_addresses })

-- NetworkNode::myKnowAddresses
unfoldable pub my_know_addresses : Dict HostAddress NetworkNodeInfo → IdSet
my_know_addresses [] = []
my_know_addresses ((_, info) ∷ rest) =
    let others = my_know_addresses rest in
    if not (info.self_id == 0) then set_insert info.self_id others else others

-- NetworkNode::workWithKnowAddresses
unfoldable pub work_with_know_addresses : IdSet → HostAddress → NetworkNode → NetworkNode × Bool
work_with_know_addresses ids sender n = elim (lookup sender n.connections) [
  | none ↦ (n, false)
  | some info ↦
      (record n { connections = insert sender (add_know_addresses ids info) n.connections }, true)
]

-- The first peer in the loop of sendData that knows the node.
unfoldable pub find_knowing : ℕ → Dict HostAddress NetworkNodeInfo → Option HostAddress
find_knowing id [] = none
find_knowing id ((address, info) ∷ rest) =
    let later = find_knowing id rest in if is_know_address id info then some address else later

-- `result += hashCode` of a bool and an unsigned int
unfoldable pub add_hash : Bool → ℕ → Bool
add_hash result hash = not (((if result then 1 else 0) + hash) % 2 ^ 32 == 0)

module _ (base : Base) where
  -- NetworkNode::sendData to an address
  unfoldable pub send_to : Message → HostAddress → NetworkNode → NetworkNode × ℕ
  send_to m address n =
      (record n { sent = n.sent ++ ((address, m) ∷ []) }, base.sends n.sent address m)

  -- The loop of brodcast: the last hash and the flag.
  unfoldable pub broadcast_each :
      Message → Dict HostAddress NetworkNodeInfo → Bool → ℕ → NetworkNode → NetworkNode × (Bool × ℕ)
  broadcast_each m [] result hash n = (n, (result, hash))
  broadcast_each m ((address, _) ∷ rest) result hash n =
      let (n', hash') = send_to m address n in
      broadcast_each m rest (add_hash result hash') hash' n'

  -- The lambda brodcast
  unfoldable pub broadcast : Message → NetworkNode → NetworkNode × ℕ
  broadcast m n =
      let (n', found) = broadcast_each m n.connections false 0 n in
      let (result, hash) = found in (n', if result then hash else 0)

  -- The TransportData that sendData makes for a package.
  unfoldable pub wrapped : Package → ℕ → NetworkNode → Transport
  wrapped p node_id n =
      (set_route (get_route node_id n.router) (record {
        cmd = base.h16_transport_data;
        payload = p;
        target_address = node_id;
        route = n.address ∷ [];
        package_id = base.package_id p;
        sender_id = n.node_id;
        route_is_complete = false;
      })).0

  -- NetworkNode::sendData to a node
  unfoldable pub send_to_node : Message → ℕ → NetworkNode → NetworkNode × ℕ
  send_to_node m node_id n = elim (find_knowing node_id n.connections) [
    | some address ↦ send_to m address n
    | none ↦ elim m [
      | transport t ↦ broadcast (transport t) n
      | plain none ↦ (n, 0)
      | plain (some p) ↦ broadcast (transport (wrapped p node_id n)) n
    ]
  ]

-- NetworkNode::nodeConfirmend: the node, and whether the peer is removed.
unfoldable pub node_confirmend : HostAddress → NetworkNode → NetworkNode × Bool
node_confirmend peer n = elim (lookup peer n.connections) [
  | none ↦ (n, false)
  | some info ↦ elim (lookup info.self_id n.known_nodes) [
    | some _ ↦ (n, true)
    | none ↦ (record n { known_nodes = insert info.self_id peer n.known_nodes }, false)
  ]
]

-- NetworkNode::nodeDisconnected
unfoldable pub node_disconnected : HostAddress → NetworkNode → NetworkNode
node_disconnected peer n = elim (lookup peer n.connections) [
  | none ↦ n
  | some info ↦ record n { known_nodes = remove info.self_id n.known_nodes }
]
