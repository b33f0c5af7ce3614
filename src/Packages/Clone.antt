-- ===== src/Packages/Clone.antt =====
-- copyFrom and init of the classes of the packages, createDBObject and DBObject::cloneRaw.
--
-- A dynamic_cast gives the part of an object that it has of a class. An object that derives from
-- DBObject is created with the default members; the members that the source
-- leaves uninitialised (the level of a permission, the trust of a member) are 0 here.
pub mod Kept
use qt_network_protocol.Prelude.{
  ℕ, ◌%◌, ◌^◌, List, [], Bool, true, false, not, Option, none, some, length, ℤ, ◌==◌, pos,
  if◌then◌else◌,
}
use qt_network_protocol.Qt.{Text}
use qt_network_protocol.Stream.{Stream}
use qt_network_protocol.Database.Object.{DbAddress, PermisionData}
use qt_network_protocol.Database.Token.{no_token}
use qt_network_protocol.Packages.Fields.{put_permision}
use qt_network_protocol.Packages.Classes.{
  AbstractData, Ping, LongPing, BadRequest, BadNodeRequest, WebSocket, DbObjectData, DeleteObject,
  AbstractNetworkMember, NodeObject, UserMember, AuthRequest, MemberPermisionObject, TransportData,
  WebSocketSubscriptions, KnowAddresses, NetworkRequest, PackageObject, close_connection, ping,
  long_ping, bad_request, bad_node_request, web_socket, web_socket_subscriptions, delete_object,
  network_member, node_object, user_member, auth_request, member_permision_object,
  know_addresses_object, network_request, transport_data, data_cmd,
}

-- What the classes take from Qt: the id that a key of a node gives, of an unsigned int, qHash, the
-- names of the tables and the number of the class UserMember.
pub record Names : Type 0 where
  pub q_hash : List ℕ → ℕ
  pub uint_id : ℕ → ℕ
  -- QString(NodeId(QCryptographicHash::hash(data, Sha256)).toBase64())
  pub key_id : List ℕ → ℕ
  pub network_members : Text
  pub member_permisions : Text
  pub user_cmd : ℕ

module _ (names : Names) (s : Stream) where
  -- dynamic_cast<const DBObject*>
  unfoldable pub as_db_object : PackageObject s → Option DbObjectData
  as_db_object (delete_object o) = some o.object
  as_db_object (network_member m) = some m.object
  as_db_object (node_object n) = some n.member.object
  as_db_object (user_member u) = some u.member.object
  as_db_object (auth_request r) = some r.user.member.object
  as_db_object (member_permision_object o) = some o.object
  as_db_object _ = none

  -- dynamic_cast<const AbstractNetworkMember*>
  unfoldable pub as_network_member : PackageObject s → Option AbstractNetworkMember
  as_network_member (network_member m) = some m
  as_network_member (node_object n) = some n.member
  as_network_member (user_member u) = some u.member
  as_network_member (auth_request r) = some r.user.member
  as_network_member _ = none

  -- dynamic_cast<const UserMember*>
  unfoldable pub as_user_member : PackageObject s → Option UserMember
  as_user_member (user_member u) = some u
  as_user_member (auth_request r) = some r.user
  as_user_member _ = none

  -- DBObject::copyFrom
  unfoldable pub copy_object : PackageObject s → DbObjectData → DbObjectData × Bool
  copy_object other o = elim (as_db_object other) [
    | none ↦ (o, false)
    | some from ↦ (record o { address = from.address }, true)
  ]

  -- AbstractNetworkMember::copyFrom
  unfoldable pub copy_member :
      PackageObject s → AbstractNetworkMember → AbstractNetworkMember × Bool
  copy_member other m =
      let (object, done) = copy_object other m.object in
      if not done then (record m { object = object }, false) else elim (as_network_member other) [
        | none ↦ (record m { object = object }, false)
        | some from ↦ (
          record {
            object = object;
            authentication_data = from.authentication_data;
            trust = from.trust;
          },
          true,
        )
      ]

  -- UserMember::copyFrom
  unfoldable pub copy_user : PackageObject s → UserMember → UserMember × Bool
  copy_user other u =
      let (member, done) = copy_member other u.member in
      if not done then (record u { member = member }, false) else elim (as_user_member other) [
        | none ↦ (record u { member = member }, false)
        | some from ↦ (record { member = member; token = from.token }, true)
      ]

  -- NodeObject::copyFrom
  unfoldable pub copy_node : PackageObject s → NodeObject → NodeObject × Bool
  copy_node other n =
      let (member, done) = copy_member other n.member in
      if not done then (record n { member = member }, false) else elim other [
        | node_object from ↦ (record { member = member; sender_id = from.sender_id }, true)
        | _ ↦ (record n { member = member }, false)
      ]

  -- MemberPermisionObject::copyFrom
  unfoldable pub copy_permision :
      PackageObject s → MemberPermisionObject → MemberPermisionObject × Bool
  copy_permision other o =
      let (object, done) = copy_object other o.object in
      if not done then (record o { object = object }, false) else elim other [
        | member_permision_object from ↦
            (record { object = object; key = from.key; permision = from.permision }, true)
        | _ ↦ (record o { object = object }, false)
      ]

  -- copyFrom of the object's class. The classes that do not override it copy nothing of their own.
  unfoldable pub copy_package_object : PackageObject s → PackageObject s → PackageObject s × Bool
  copy_package_object other (long_ping p) = elim other [
    | long_ping from ↦ (long_ping (record p { sender_id = from.sender_id }), true)
    | _ ↦ (long_ping p, false)
  ]
  copy_package_object other (bad_node_request r) = elim other [
    | bad_node_request from ↦ (bad_node_request (record r { sender_id = from.sender_id }), true)
    | _ ↦ (bad_node_request r, false)
  ]
  copy_package_object other (know_addresses_object k) = elim other [
    | know_addresses_object from ↦
        (know_addresses_object (record k { know_addresses = from.know_addresses }), true)
    | _ ↦ (know_addresses_object k, false)
  ]
  copy_package_object other (network_request r) = elim other [
    | network_request from ↦ (network_request (record from { data_ = r.data_ }), true)
    | _ ↦ (network_request r, false)
  ]
  copy_package_object other (delete_object o) =
      let (object, done) = copy_object other o.object in
      (delete_object (record o { object = object }), done)
  copy_package_object other (network_member m) =
      let (member, done) = copy_member other m in (network_member member, done)
  copy_package_object other (node_object n) =
      let (node, done) = copy_node other n in (node_object node, done)
  copy_package_object other (user_member u) =
      let (user, done) = copy_user other u in (user_member user, done)
  copy_package_object other (auth_request r) =
      let (user, done) = copy_user other r.user in (auth_request (record r { user = user }), done)
  copy_package_object other (member_permision_object o) =
      let (permision, done) = copy_permision other o in (member_permision_object permision, done)
  copy_package_object other x = (x, true)

  abbrev new_object : Text → ℕ → DbObjectData
  new_object table class_cmd = record {
    data_ = record { stored_cmd = 0; class_cmd = class_cmd };
    address = record { table = table; id = 0 };
  }

  abbrev new_member : ℕ → ℤ → AbstractNetworkMember
  new_member class_cmd trust = record {
    object = new_object names.network_members class_cmd;
    authentication_data = [];
    trust = trust;
  }

  -- createDBObject of the object's class, none for a class that is no DBObject
  unfoldable pub new_db_object : PackageObject s → Option (PackageObject s)
  new_db_object (delete_object o) =
      some (
        delete_object
          (record { object = new_object [] o.object.data_.class_cmd; token = no_token }))
  new_db_object (network_member m) =
      some (network_member (new_member m.object.data_.class_cmd (pos 0)))
  new_db_object (node_object n) = some (
      node_object
        (record { member = new_member n.member.object.data_.class_cmd (pos 0); sender_id = 0 }))
  new_db_object (user_member u) = some (
      user_member (record {
        member = new_member u.member.object.data_.class_cmd (pos 100);
        token = no_token;
      }))
  new_db_object (auth_request r) =
      some (user_member (record { member = new_member names.user_cmd (pos 100); token = no_token }))
  new_db_object (member_permision_object o) = some (
      member_permision_object (record {
        object = new_object names.member_permisions o.object.data_.class_cmd;
        key = record { id = 0; address_hash = [] };
        permision = 0;
      }))
  new_db_object _ = none

  -- AbstractData::init, of a class that derives from AbstractData
  unfoldable pub init_data : AbstractData → AbstractData
  init_data d = record d { stored_cmd = d.class_cmd }

  unfoldable pub init_object : DbObjectData → DbObjectData
  init_object o = record o { data_ = init_data o.data_ }

  unfoldable pub init_member : AbstractNetworkMember → AbstractNetworkMember
  init_member m = record m { object = init_object m.object }

  -- NodeObject::init
  unfoldable pub init_node : NodeObject → NodeObject
  init_node n =
      let m = init_member n.member in
      if length m.authentication_data == 0
      then record n { member = m }
      else (let address : DbAddress = record m.object.address {
        id = names.key_id m.authentication_data;
      } in
          record n { member = record m { object = record m.object { address = address } } })

  -- PermisionData::hash
  unfoldable pub permision_hash : PermisionData → ℕ
  permision_hash key = names.q_hash (put_permision s key) % 2 ^ 32

  -- MemberPermisionObject::init
  unfoldable pub init_permision : MemberPermisionObject → MemberPermisionObject
  init_permision o =
      let object = init_object o.object in
      let address : DbAddress = record object.address {
        id = names.uint_id (permision_hash o.key);
      } in
      record o { object = record object { address = address } }

  -- init of the class of a DBObject
  unfoldable pub init_class : PackageObject s → PackageObject s
  init_class (delete_object o) = delete_object (record o { object = init_object o.object })
  init_class (network_member m) = network_member (init_member m)
  init_class (node_object n) = node_object (init_node n)
  init_class (user_member u) = user_member (record u { member = init_member u.member })
  init_class (auth_request r) =
      auth_request (record r { user = record r.user { member = init_member r.user.member } })
  init_class (member_permision_object o) = member_permision_object (init_permision o)
  init_class x = x

  -- DBObject::cloneRaw, none for the null pointer
  unfoldable pub clone_raw : PackageObject s → Option (PackageObject s)
  clone_raw x = elim (new_db_object x) [
    | none ↦ none
    | some new ↦
        (let (copied, done) = copy_package_object x new in
          if not done then none else some (init_class copied))
  ]
