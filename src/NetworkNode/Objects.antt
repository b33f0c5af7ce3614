-- ===== src/NetworkNode/Objects.antt =====
-- networknode.cpp: workWithNodeObjectData, thisNode, welcomeAddress, badRequest and ping of a node.
--
-- `Members` stands for the database of the node, whose type is D, and for what it does with a
-- NodeObject.
pub mod Trust
use qt_network_protocol.Prelude.{
  ℕ, List, [], ◌∷◌, Bool, true, false, not, Option, none, some, lookup, insert, ℤ, pos, leb_ℤ,
  length, if◌then◌else◌, ◌==◌,
}
use qt_network_protocol.HostAddress.{HostAddress, host_address_eq}
use qt_network_protocol.Package.{Package}
use qt_network_protocol.NetworkNode.{
  NetworkNode, NetworkNodeInfo, Base, Message, plain, send_to, send_to_node, set_self_id,
  my_know_addresses,
}
use qt_network_protocol.Packages.Classes.{NodeObject, AbstractNetworkMember}

-- The database: getObject of a NodeObject with the cast of its result, updateObject and insertObject
-- with whether they succeed, and NodeId of its id. Nothing is assumed of them.
pub record Members (D : Type 0) : Type 0 where
  pub get_member : D → ℕ → Option AbstractNetworkMember
  pub update_member : D → AbstractNetworkMember → D × Bool
  pub insert_member : D → AbstractNetworkMember → D × Bool
  pub node_of_id : ℕ → ℕ

-- std::min
unfoldable pub min_ℤ : ℤ → ℤ → ℤ
min_ℤ a b = if leb_ℤ a b then a else b

abbrev pub member_id : NodeObject → ℕ
member_id node = node.member.object.address.id

abbrev pub with_trust : ℤ → NodeObject → NodeObject
with_trust trust node = record node { member = record node.member { trust = trust } }

module _ {D : Type 0} (members : Members D) where
  -- What workWithNodeObjectData writes to the database, and whether it does.
  unfoldable pub store_node_object : NodeObject → D → D × Bool
  store_node_object node db = elim (members.get_member db (member_id node)) [
    | some local ↦
        members.update_member db (with_trust (min_ℤ node.member.trust local.trust) node).member
    | none ↦ members.insert_member db (with_trust (pos 0) node).member
  ]

  -- NetworkNode::workWithNodeObjectData, of a node that may have a database
  unfoldable pub work_with_node_object_data :
      NodeObject → HostAddress → Option D → NetworkNode → (Option D × NetworkNode) × Bool
  work_with_node_object_data node sender none n = ((none, n), false)
  work_with_node_object_data node sender (some db) n =
      let (db', done) = store_node_object node db in
      if not done then ((some db', n), false) else elim (lookup sender n.connections) [
        | none ↦ ((some db', n), false)
        | some info ↦ (
          (
            some db',
            record n {
              connections =
                  insert sender (set_self_id (members.node_of_id (member_id node)) info)
                    n.connections;
            },
          ),
          true,
        )
      ]

  -- The packages with a NodeObject that a node gets, each from its peer.
  unfoldable pub work_with_all :
      List (NodeObject × HostAddress) → Option D → NetworkNode → Option D × NetworkNode
  work_with_all [] db n = (db, n)
  work_with_all ((node, sender) ∷ rest) db n =
      let (next, done) = work_with_node_object_data node sender db n in
      work_with_all rest next.0 next.1

-- What the node sends of its own: the packages of its NodeObject, of the addresses that it knows,
-- of a LongPing and of a BadRequest, as AbstractData::toPackage gives them.
pub record OwnPackages : Type 0 where
  pub node_object : Option Package
  pub know_addresses : List ℕ → Option Package
  pub long_ping : ℕ → Option Package
  pub bad_request : ℕ → List ℕ → Option Package

module _ (base : Base) (own : OwnPackages) where
  -- NetworkNode::welcomeAddress
  unfoldable pub welcome_address : HostAddress → NetworkNode → NetworkNode × Bool
  welcome_address peer n =
      let (n', hash) = send_to base (plain own.node_object) peer n in
      if hash == 0
      then (n', false)
      else if length n'.connections == 0
      then (n', true)
      else (let known = my_know_addresses n'.connections in
          if length known == 0
          then (n', true)
          else (let (n'', hash') = send_to base (plain (own.know_addresses known)) peer n' in
              (n'', not (hash' == 0))))

  -- NetworkNode::badRequest of a node id, for whether changeTrust succeeds
  unfoldable pub bad_request_node : Bool → ℕ → ℕ → List ℕ → NetworkNode → NetworkNode
  bad_request_node trust_changed node code err n =
      if not trust_changed
      then n
      else (send_to_node base (plain (own.bad_request code err)) node n).0

  -- NetworkNode::ping
  unfoldable pub ping_by_id : ℕ → NetworkNode → NetworkNode × ℕ
  ping_by_id node n = send_to_node base (plain (own.long_ping n.node_id)) node n
