-- ===== src/Node/State.antt =====
-- abstractnode.cpp: the state of a node, the access to its peers, bans and trust, and the counts and
-- lists of peers.
use qt_network_protocol.Prelude.{
  ℕ, suc, List, [], ◌∷◌, Bool, true, false, not, Option, none, some, length, leb, if◌then◌else◌,
  Dict, lookup, insert, ℤ, ◌+ℤ◌, leb_ℤ,
}
use qt_network_protocol.Qt.{Text}
use qt_network_protocol.HostAddress.{HostAddress, host_address_eq}
use qt_network_protocol.NodeInfo
use qt_network_protocol.NodeInfo.{
  NodeInfo, NodeCoonectionStatus, not_connected, connected, confirmed, Socket, status_eq,
}
use qt_network_protocol.NodeInfo.TrustNode

-- What QTimer::singleShot will call: checkConfirmendOfNode or handleForceRemoveNode.
pub data Timer : Type 0 where
  check_confirmend force_remove : HostAddress → Timer

pub record Node : Type 0 where
  -- _connections
  pub connections : Dict HostAddress NodeInfo
  -- maxPendingConnections() and isListening() of QTcpServer
  pub max_pending_connections : ℕ
  pub is_listening : Bool
  pub timers : List Timer
  -- the socket and the bytes of each successful write
  pub sent : List (ℕ × List ℕ)
  pub request_errors : List (ℕ × Text)

-- AbstractNode::getInfoPtr
unfoldable pub get_info_ptr : HostAddress → Node → Option NodeInfo
get_info_ptr id n = lookup id n.connections

-- A call of a method through the pointer that getInfoPtr returns.
unfoldable pub update_info : HostAddress → (NodeInfo → NodeInfo) → Node → Node
update_info id f n = elim (lookup id n.connections) [
  | none ↦ n
  | some i ↦ record n { connections = insert id (f i) n.connections }
]

-- AbstractNode::ban
unfoldable pub ban : HostAddress → Node → Node
ban target n = update_info target NodeInfo.ban n

-- A pointer of the table as a condition.
abbrev pointer_set : NodeInfo → Bool
pointer_set i = true

-- AbstractNode::unBan
unfoldable pub un_ban : HostAddress → Node → Node
un_ban target n = elim (lookup target n.connections) [
  | none ↦ n
  | some i ↦ if pointer_set i then n else update_info target NodeInfo.un_ban n
]

-- CRITICAL_ERROOR and REQUEST_ERROR
abbrev pub critical_erroor : ℤ
critical_erroor = ℤ.negsuc 49

abbrev pub request_error : ℤ
request_error = ℤ.negsuc 4

-- AbstractNode::changeTrust
unfoldable pub change_trust : HostAddress → ℤ → Node → Node × Bool
change_trust id diff n = elim (lookup id n.connections) [
  | none ↦ (n, false)
  | some i ↦
      if leb_ℤ TrustNode.undefined i.trust
      then (n, false)
      else if leb_ℤ i.trust TrustNode.baned
      then (n, false)
      else (update_info id (NodeInfo.set_trust (i.trust +ℤ diff)) n, true)
]

-- AbstractNode::connectionsCount, confirmendCount, banedList and connectionsList
unfoldable pub count_if : (NodeInfo → Bool) → Dict HostAddress NodeInfo → ℕ
count_if test [] = 0
count_if test ((a, i) ∷ rest) = if test i then suc (count_if test rest) else count_if test rest

unfoldable pub connections_count : Node → ℕ
connections_count n = count_if NodeInfo.is_connected n.connections

unfoldable pub confirmend_count : Node → ℕ
confirmend_count n = count_if (λ i. status_eq i.status confirmed) n.connections

unfoldable pub keys_if : (NodeInfo → Bool) → Dict HostAddress NodeInfo → List HostAddress
keys_if test [] = []
keys_if test ((a, i) ∷ rest) = if test i then a ∷ keys_if test rest else keys_if test rest

unfoldable pub baned_list : Node → List HostAddress
baned_list n = keys_if NodeInfo.is_banned n.connections

unfoldable pub connections_list : Node → List HostAddress
connections_list n = keys_if (λ _. true) n.connections

-- AbstractNode::getWorkStateString
pub data WorkStateString : Type 0 where
  overload work not_running : WorkStateString

unfoldable pub get_work_state_string : Node → WorkStateString
get_work_state_string n =
    if n.is_listening
    then (if leb n.max_pending_connections (connections_count n) then overload else work)
    else not_running

-- AbstractNode::isBanned
unfoldable pub is_banned : Socket → Node → Bool
is_banned s n = elim (lookup s.peer n.connections) [
  | none ↦ false
  | some i ↦ if not (NodeInfo.is_valid i) then false else NodeInfo.is_banned i
]

-- WorkState with its getters, as AbstractNode::getWorkState fills it in (workstate.cpp).
pub record WorkState : Type 0 where
  pub max_connection_count : ℕ
  pub is_run : Bool
  pub baned : List HostAddress
  pub connections : List HostAddress

unfoldable pub get_work_state : Node → WorkState
get_work_state n = record {
  max_connection_count = n.max_pending_connections;
  is_run = n.is_listening;
  baned = baned_list n;
  connections = connections_list n;
}

-- WorkState::getWorkStateString
unfoldable pub work_state_string : WorkState → WorkStateString
work_state_string w =
    if w.is_run
    then (if leb w.max_connection_count (length w.connections) then overload else work)
    else not_running
