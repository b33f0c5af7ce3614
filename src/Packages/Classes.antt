-- ===== src/Packages/Classes.antt =====
-- The classes that derive from AbstractData (Heart/AbstractSpace/packages, DataBaseSpace/packages
-- and NetworkSpace/packages), with the members that each adds to its base.
--
-- A base class is the field that is named after it. `class_cmd` is what H_16 gives to the class.
use qt_network_protocol.Prelude.{ℕ, List, Bool, not, ℤ, if◌then◌else◌, ◌==◌}
use qt_network_protocol.Qt.{Text}
use qt_network_protocol.Stream.{Stream}
use qt_network_protocol.HostAddress.{HostAddress}
use qt_network_protocol.Package.{Package}
use qt_network_protocol.Database.Object.{DbAddress, PermisionData}
use qt_network_protocol.Database.Token.{AccessToken}

pub record AbstractData : Type 0 where
  pub stored_cmd : ℕ
  pub class_cmd : ℕ

pub record Ping : Type 0 where
  pub data_ : AbstractData
  pub ansver : Bool

pub record LongPing : Type 0 where
  pub ping : Ping
  pub sender_id : ℕ

pub record BadRequest : Type 0 where
  pub data_ : AbstractData
  pub err_code : ℕ
  pub err : Text

pub record BadNodeRequest : Type 0 where
  pub bad_request : BadRequest
  pub sender_id : ℕ

-- The request is the int behind the enum class.
pub record WebSocket : Type 0 where
  pub data_ : AbstractData
  pub request : ℤ
  pub subscribe_id : ℕ

pub record DbObjectData : Type 0 where
  pub data_ : AbstractData
  pub address : DbAddress

pub record DeleteObject : Type 0 where
  pub object : DbObjectData
  pub token : AccessToken

pub record AbstractNetworkMember : Type 0 where
  pub object : DbObjectData
  pub authentication_data : List ℕ
  pub trust : ℤ

pub record NodeObject : Type 0 where
  pub member : AbstractNetworkMember
  pub sender_id : ℕ

pub record UserMember : Type 0 where
  pub member : AbstractNetworkMember
  pub token : AccessToken

-- The request is the unsigned char behind the enum class.
pub record AuthRequest : Type 0 where
  pub user : UserMember
  pub request : ℕ

-- The level is the unsigned char behind Permission.
pub record MemberPermisionObject : Type 0 where
  pub object : DbObjectData
  pub key : PermisionData
  pub permision : ℕ

-- AbstractData::cmd
unfoldable pub data_cmd : AbstractData → ℕ
data_cmd d = if not (d.stored_cmd == 0) then d.stored_cmd else d.class_cmd

pub record TransportData : Type 0 where
  pub data_ : AbstractData
  pub target_address : ℕ
  pub sender_id : ℕ
  pub package_id : ℕ
  pub route_is_complete : Bool
  pub route : List HostAddress
  pub payload : Package

module _ (s : Stream) where
  pub record WebSocketSubscriptions : Type 0 where
    pub data_ : AbstractData
    pub subscribe_ids : s.QSet

  pub record KnowAddresses : Type 0 where
    pub data_ : AbstractData
    pub know_addresses : s.QSet

  pub record NetworkRequest : Type 0 where
    pub data_ : AbstractData
    pub data_request : Package
    pub asked_nodes : s.QSet
    pub data_responce : Package

  -- An object of one of the classes
  pub data PackageObject : Type 0 where
    close_connection : AbstractData → PackageObject
    ping : Ping → PackageObject
    long_ping : LongPing → PackageObject
    bad_request : BadRequest → PackageObject
    bad_node_request : BadNodeRequest → PackageObject
    web_socket : WebSocket → PackageObject
    web_socket_subscriptions : WebSocketSubscriptions → PackageObject
    delete_object : DeleteObject → PackageObject
    network_member : AbstractNetworkMember → PackageObject
    node_object : NodeObject → PackageObject
    user_member : UserMember → PackageObject
    auth_request : AuthRequest → PackageObject
    member_permision_object : MemberPermisionObject → PackageObject
    know_addresses_object : KnowAddresses → PackageObject
    network_request : NetworkRequest → PackageObject
    transport_data : TransportData → PackageObject
