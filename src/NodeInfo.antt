-- ===== src/NodeInfo.antt =====
-- Heart/AbstractSpace/abstractnodeinfo.h and abstractnodeinfo.cpp: what a node knows of one peer,
-- its socket, its trust and the status of the connection.
--
-- A socket is what Qt reports of it: an identity, its peer and whether it is connected. Signals
-- that the object emits are appended to `signals`. The DNS lookup and its QHostInfo are left out.
pub mod TrustNode
pub mod Status
pub mod Trust
use qt_network_protocol.Prelude.{
  ℕ, Bool, true, false, ◌&&◌, not, List, [], ◌∷◌, ◌++◌, Option, none, some, if◌then◌else◌, ℤ, pos,
  ltb_ℤ,
}
use qt_network_protocol.HostAddress.{HostAddress, null_address, is_null}
use TrustNode

-- enum class NodeCoonectionStatus
pub data NodeCoonectionStatus : Type 0 where
  not_connected connected confirmed : NodeCoonectionStatus

abbrev pub status_eq : NodeCoonectionStatus → NodeCoonectionStatus → Bool
status_eq not_connected not_connected = true
status_eq connected connected = true
status_eq confirmed confirmed = true
status_eq _ _ = false

-- A QAbstractSocket: `peer` is what peerAddress and peerPort return, `is_open` whether state() is
-- ConnectedState.
pub record Socket : Type 0 where
  pub id : ℕ
  pub peer : HostAddress
  pub is_open : Bool

pub data Signal : Type 0 where
  sig_connected sig_disconnected : Signal
  status_chaned : NodeCoonectionStatus → Signal

pub record NodeInfo : Type 0 where
  pub network_address : HostAddress
  pub sct : Option Socket
  pub trust : ℤ
  pub status : NodeCoonectionStatus
  pub is_local : Bool
  pub signals : List Signal

-- The member initialisers.
abbrev pub initial : NodeInfo
initial = record {
  network_address = null_address;
  sct = none;
  trust = TrustNode.default;
  status = not_connected;
  is_local = false;
  signals = [];
}

abbrev emit : Signal → NodeInfo → NodeInfo
emit s i = record i { signals = i.signals ++ (s ∷ []) }

-- AbstractNodeInfo::setStatus
unfoldable pub set_status : NodeCoonectionStatus → NodeInfo → NodeInfo
set_status s i =
    if status_eq s i.status then i else emit (status_chaned s) (record i { status = s })

-- AbstractNodeInfo::removeSocket; the socket is deleted later, on its own thread.
unfoldable pub remove_socket : NodeInfo → NodeInfo
remove_socket i = elim i.sct [
  | none ↦ i
  | some _ ↦ emit sig_disconnected (set_status not_connected (record i { sct = none }))
]

-- AbstractNodeInfo::ban
unfoldable pub ban : NodeInfo → NodeInfo
ban i = remove_socket (record i { trust = TrustNode.baned })

-- AbstractNodeInfo::isBanned
unfoldable pub is_banned : NodeInfo → Bool
is_banned i = ltb_ℤ i.trust (pos 1)

-- AbstractNodeInfo::unBan
unfoldable pub un_ban : NodeInfo → NodeInfo
un_ban i = record i { trust = TrustNode.restore }

-- AbstractNodeInfo::setNetworkAddress
unfoldable pub set_network_address : HostAddress → NodeInfo → NodeInfo
set_network_address a i = if not (is_null a) then record i { network_address = a } else i

-- The function that setSct connects to the socket's `connected` signal.
unfoldable pub handle_connected : NodeInfo → NodeInfo
handle_connected i = emit sig_connected (set_status connected i)

-- What setSct does with the new socket.
unfoldable pub adopt : Option Socket → NodeInfo → NodeInfo
adopt none i = i
adopt (some s) i =
    let addressed = if is_null s.peer then i else set_network_address s.peer i in
    if s.is_open then handle_connected addressed else addressed

-- AbstractNodeInfo::setSct
unfoldable pub set_sct : Option Socket → NodeInfo → NodeInfo
set_sct s i = adopt s (record (remove_socket i) { sct = s })

-- AbstractNodeInfo::AbstractNodeInfo
unfoldable pub node_info : Option Socket → Option HostAddress → NodeInfo
node_info s none = set_sct s initial
node_info s (some a) = set_network_address a (set_sct s initial)

-- AbstractNodeInfo::setIsLocal
unfoldable pub set_is_local : Bool → NodeInfo → NodeInfo
set_is_local b i = record i { is_local = b }

-- AbstractNodeInfo::confirmData
unfoldable pub confirm_data : NodeInfo → Bool
confirm_data i = not (status_eq i.status not_connected)

-- AbstractNodeInfo::updateConfirmStatus
unfoldable pub update_confirm_status : NodeInfo → NodeInfo
update_confirm_status i = if confirm_data i then set_status confirmed i else i

-- AbstractNodeInfo::setTrust
unfoldable pub set_trust : ℤ → NodeInfo → NodeInfo
set_trust t i = let j = record i { trust = t } in if is_banned j then remove_socket j else j

-- AbstractNodeInfo::isValid
unfoldable pub is_valid : NodeInfo → Bool
is_valid i = elim i.sct [ none ↦ false | some _ ↦ true ]

-- AbstractNodeInfo::isConnected
unfoldable pub is_connected : NodeInfo → Bool
is_connected i = is_valid i && not (status_eq i.status not_connected)

-- AbstractNodeInfo::reset
unfoldable pub reset : NodeInfo → NodeInfo
reset i = set_is_local false (
    set_status not_connected
      (set_trust TrustNode.default (set_network_address null_address (set_sct none i))))
