-- ===== src/SingleClient.antt =====
-- Heart/DataBaseSpace/singleclient.h and singleclient.cpp: the client of a single server.
--
-- The members of SingleClient itself are the state; what it inherits appears as the parameter
-- `sends` (the hash that DataBaseNode::sendData returns, 0 for a failure) and as the result that the
-- parent's parsePackage returns. `now` is the current second. A handler of a request is a number;
-- its calls are recorded.
pub mod Request
pub mod Event
pub mod Status
pub mod Logined
pub mod Late
use qt_network_protocol.Prelude.{
  ℕ, List, [], ◌∷◌, ◌++◌, Bool, true, false, ◌&&◌, ◌||◌, not, Option, none, some, Dict, nat_eq,
  lookup, insert, remove, IdSet, member, set_insert, set_remove, if◌then◌else◌, ◌==◌, ltb, length,
  ℤ, pos, leb_ℤ,
}
use qt_network_protocol.HostAddress.{HostAddress, null_address}
use qt_network_protocol.Database.Token.{AccessToken, no_token, token_is_valid, token_equal}
use qt_network_protocol.Node.Parse.{ParserResult, error, not_processed, processed}

-- enum class ClientStatus, and its order
pub data ClientStatus : Type 0 where
  dissconnected connecting connected loginning logined : ClientStatus

abbrev pub rank : ClientStatus → ℕ
rank dissconnected = 0
rank connecting = 1
rank connected = 2
rank loginning = 3
rank logined = 4

abbrev pub below : ClientStatus → ClientStatus → Bool
below s t = ltb (rank s) (rank t)

-- `_status == Connecting || _status == Loginning`
abbrev pub is_waiting : ClientStatus → Bool
is_waiting s = rank s == 1 || rank s == 3

-- PKG::UserMember
pub record Member : Type 0 where
  pub id : ℕ
  pub authentication_data : List ℕ
  pub trust : ℤ
  pub token : AccessToken

-- UserMember::UserMember
abbrev pub no_member : Member
no_member = record { id = 0; authentication_data = []; trust = pos 100; token = no_token }

-- UserMember::isValid: an id, and trust of 100 at most
unfoldable pub member_is_valid : Member → Bool
member_is_valid m = not (m.id == 0) && leb_ℤ m.trust (pos 100)

-- The requests that the client sends.
pub data Outgoing : Type 0 where
  log_in sign_up log_out : Member → Outgoing
  delete_object : ℕ → AccessToken → Outgoing
  subscribe_to unsubscribe_from : ℕ → Outgoing
  subscribe_list : Outgoing
  custom : ℕ → Outgoing

-- The jobs of QTimer::singleShot: of setStatus, with the status before, and of restRequest.
pub data ClientTimer : Type 0 where
  restore : ClientStatus → ClientTimer
  forget : ℕ → ClientTimer

-- The signals, and the calls of addNode and removeNode.
pub data ClientSignal : Type 0 where
  status_changed : ClientStatus → ClientSignal
  request_error : ℕ → ClientSignal
  current_user_changed adds_node : ClientSignal
  removes_node : HostAddress → ClientSignal

pub record SingleClient : Type 0 where
  pub status : ClientStatus
  pub member : Member
  pub last_error : ℕ
  pub subscribes : IdSet
  -- _handlersCache, by the hash of the request
  pub handlers_cache : Dict ℕ ℕ
  pub real_server_address : HostAddress
  pub timers : List ClientTimer
  pub signals : List ClientSignal
  pub sent : List (HostAddress × Outgoing)
  -- the handlers that were called
  pub handled : List ℕ

-- The member initialisers.
abbrev pub new_client : SingleClient
new_client = record {
  status = dissconnected;
  member = no_member;
  last_error = 0;
  subscribes = [];
  handlers_cache = [];
  real_server_address = null_address;
  timers = [];
  signals = [];
  sent = [];
  handled = [];
}

unfoldable pub signal : ClientSignal → SingleClient → SingleClient
signal s c = record c { signals = c.signals ++ (s ∷ []) }

-- SingleClient::setStatus
unfoldable pub set_status : ClientStatus → SingleClient → SingleClient
set_status status c = if rank status == rank c.status then c else record c {
  timers = if is_waiting status then c.timers ++ (restore c.status ∷ []) else c.timers;
  status = status;
  signals = c.signals ++ (status_changed status ∷ []);
}

-- SingleClient::handleError
unfoldable pub handle_error : ℕ → SingleClient → SingleClient
handle_error code c =
    if not (code == 0) && rank c.status == 3
    then record (set_status connected c) { last_error = code }
    else record c { last_error = code }

-- ErrorCodes::TimeOutError
abbrev pub time_out_error : ℕ
time_out_error = 10

-- The emission of requestError, to which handleError is connected.
unfoldable pub emit_request_error : ℕ → SingleClient → SingleClient
emit_request_error code c = handle_error code (signal (request_error code) c)

-- The job of a timer.
unfoldable pub fire : ClientTimer → SingleClient → SingleClient
fire (restore old) c =
    if is_waiting c.status then emit_request_error time_out_error (set_status old c) else c
fire (forget hash) c = record c { handlers_cache = remove hash c.handlers_cache }

-- SingleClient::setRealServerAddress, nodeConnected, nodeDisconnected and nodeErrorOccured
unfoldable pub node_connected : HostAddress → SingleClient → SingleClient
node_connected address c = set_status connected (record c { real_server_address = address })

unfoldable pub node_disconnected : SingleClient → SingleClient
node_disconnected c = set_status dissconnected (record c { real_server_address = null_address })

unfoldable pub node_error_occured : SingleClient → SingleClient
node_error_occured c = set_status dissconnected c

-- SingleClient::resetUser
unfoldable pub reset_user : SingleClient → SingleClient
reset_user c =
    let bare = record c { member = no_member } in
    if below connected bare.status then set_status connected bare else bare

-- SingleClient::connectToServer
unfoldable pub connect_to_server : SingleClient → SingleClient × Bool
connect_to_server c =
    if not (below c.status connected)
    then (c, true)
    else (signal adds_node (if below c.status connecting then set_status connecting c else c), true)

-- SingleClient::disconnectFromServer
unfoldable pub disconnect_from_server : SingleClient → SingleClient
disconnect_from_server c =
    if rank c.status == 0 then c else signal (removes_node c.real_server_address) c

-- The packages that reach SingleClient::parsePackage: a UserMember, a WebSocketSubscriptions with
-- whether it is valid, or another.
pub data Incoming : Type 0 where
  user_member : Member → Incoming
  subscriptions : Bool → IdSet → Incoming
  other_package : Incoming

-- SingleClient::handleRestRequest
unfoldable pub handle_rest_request : ℕ → SingleClient → SingleClient
handle_rest_request trigger_hash c = elim (lookup trigger_hash c.handlers_cache) [
  | none ↦ c
  | some action ↦ record c {
    handlers_cache = remove trigger_hash c.handlers_cache;
    handled = c.handled ++ (action ∷ []);
  }
]

-- SingleClient::parsePackage, for the result of DataBaseNode::parsePackage
unfoldable pub parse_package :
    ℕ → ParserResult → Incoming → ℕ → SingleClient → SingleClient × ParserResult
parse_package now not_processed (user_member obj) trigger_hash c =
    if not (member_is_valid obj && token_is_valid now obj.token)
    then (c, error)
    else (signal current_user_changed (set_status logined (record c { member = obj })), processed)
parse_package now not_processed (subscriptions valid ids) trigger_hash c =
    if not valid then (c, error) else (record c { subscribes = ids }, processed)
parse_package now not_processed other_package trigger_hash c =
    (handle_rest_request trigger_hash c, not_processed)
parse_package now error pkg trigger_hash c = (c, error)
parse_package now processed pkg trigger_hash c = (c, processed)
