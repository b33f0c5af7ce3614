-- ===== src/NodeInfo/Status.antt =====
-- The status of a connection over any sequence of the operations of AbstractNodeInfo.
use qt_network_protocol.Prelude.{
  ◌≡◌, ◌≢◌, refl, sym, ◌∙◌, ◌⊎◌, Bool, List, [], ◌∷◌, ◌++◌, Option, none, some, arith, ℤ,
}
use qt_network_protocol.HostAddress.{HostAddress, null_address}
use qt_network_protocol.NodeInfo.TrustNode
use qt_network_protocol.NodeInfo.{
  NodeInfo, NodeCoonectionStatus, not_connected, connected, confirmed, Socket, Signal,
  sig_connected, sig_disconnected, status_chaned, initial, set_status, remove_socket, ban, un_ban,
  set_network_address, handle_connected, set_sct, set_is_local, update_confirm_status, set_trust,
  reset, adopt, confirm_data,
}

-- What happens to the object: calls of its methods, and its socket's `connected` signal, which Qt
-- sends only while the socket is still attached.
pub data Event : Type 0 where
  removes_socket bans un_bans confirms resets socket_connected : Event
  sets_sct : Option Socket → Event
  sets_trust : ℤ → Event
  sets_network_address : HostAddress → Event
  sets_is_local : Bool → Event
  sets_status : NodeCoonectionStatus → Event

unfoldable pub step : Event → NodeInfo → NodeInfo
step removes_socket i = remove_socket i
step bans i = ban i
step un_bans i = un_ban i
step confirms i = update_confirm_status i
step resets i = reset i
step socket_connected i = elim i.sct [ none ↦ i | some _ ↦ handle_connected i ]
step (sets_sct s) i = set_sct s i
step (sets_trust t) i = set_trust t i
step (sets_network_address a) i = set_network_address a i
step (sets_is_local b) i = set_is_local b i
step (sets_status s) i = set_status s i

unfoldable pub run : List Event → NodeInfo → NodeInfo
unfolding step
run [] i = i
run (e ∷ es) i = run es (step e i)

-- A call of setStatus from outside finds a socket, or sets `not_connected`.
abbrev pub Allowed : Event → NodeInfo → Type 0
Allowed (sets_status s) i = i.sct ≡ none → s ≡ not_connected
Allowed _ i = Unit {0}

abbrev pub AllAllowed : List Event → NodeInfo → Type 0
AllAllowed [] i = Unit {0}
AllAllowed (e ∷ es) i = Allowed e i × AllAllowed es (step e i)

-- The status that the listeners of statusChaned were last told.
unfoldable pub told_from : NodeCoonectionStatus → List Signal → NodeCoonectionStatus
told_from s [] = s
told_from s (status_chaned t ∷ l) = told_from t l
told_from s (sig_connected ∷ l) = told_from s l
told_from s (sig_disconnected ∷ l) = told_from s l

told_from-append :
    (s : NodeCoonectionStatus) (l m : List Signal)
    → told_from s (l ++ m) ≡ told_from (told_from s l) m
unfolding told_from
told_from-append s [] m = refl
told_from-append s (status_chaned t ∷ l) m = told_from-append t l m
told_from-append s (sig_connected ∷ l) m = told_from-append s l m
told_from-append s (sig_disconnected ∷ l) m = told_from-append s l m

abbrev pub told : NodeInfo → NodeCoonectionStatus
told i = told_from not_connected i.signals

-- A connection without a socket is not connected, and the listeners know the status.
pub record IsCoherent (i : NodeInfo) : Type 0 where
  pub no_socket : i.sct ≡ none → i.status ≡ not_connected
  pub reported : told i ≡ i.status

abbrev Reported : NodeInfo → Type 0
Reported i = told i ≡ i.status

status-set_status : (s : NodeCoonectionStatus) (i : NodeInfo) → (set_status s i).status ≡ s
unfolding set_status
status-set_status s i = ground arith

sct-set_status : (s : NodeCoonectionStatus) (i : NodeInfo) → (set_status s i).sct ≡ i.sct
unfolding set_status
sct-set_status s i = ground arith

set_status-Reported :
    (s : NodeCoonectionStatus) (i : NodeInfo) → Reported i → Reported (set_status s i)
unfolding set_status told_from
set_status-Reported s i r =
    ground (arith, told_from-append not_connected i.signals (status_chaned s ∷ []))

remove_socket-IsCoherent : (i : NodeInfo) → IsCoherent i → IsCoherent (remove_socket i)
unfolding remove_socket told_from
remove_socket-IsCoherent i c =
    let bare = record i { sct = none } in
    ground (
      arith,
      set_status-Reported not_connected bare c.reported,
      status-set_status not_connected bare,
      told_from-append not_connected (set_status not_connected bare).signals
          (sig_disconnected ∷ []),
    )

-- After removeSocket there is neither a socket nor a connection.
pub remove_socket_clears :
    (i : NodeInfo)
    → IsCoherent i
    → ((remove_socket i).sct ≡ none) × ((remove_socket i).status ≡ not_connected)
unfolding remove_socket
remove_socket_clears i c =
    let bare = record i { sct = none } in
    ground
      (arith, status-set_status not_connected bare, sct-set_status not_connected bare, c.no_socket)

set_network_address-IsCoherent :
    (a : HostAddress) (i : NodeInfo) → IsCoherent i → IsCoherent (set_network_address a i)
unfolding set_network_address
set_network_address-IsCoherent a i c = ground (arith, c.no_socket, c.reported)

handle_connected-IsCoherent :
    (i : NodeInfo) → i.sct ≢ none → IsCoherent i → IsCoherent (handle_connected i)
unfolding handle_connected told_from
handle_connected-IsCoherent i n c = ground (
  arith,
  set_status-Reported connected i c.reported,
  status-set_status connected i,
  sct-set_status connected i,
  told_from-append not_connected (set_status connected i).signals (sig_connected ∷ []),
)

sct-set_network_address : (a : HostAddress) (i : NodeInfo) → (set_network_address a i).sct ≡ i.sct
unfolding set_network_address
sct-set_network_address a i = ground arith

adopt-IsCoherent :
    (s : Option Socket) (i : NodeInfo) → i.sct ≡ s → IsCoherent i → IsCoherent (adopt s i)
unfolding adopt
adopt-IsCoherent none i e c = c
adopt-IsCoherent (some s) i e c = ground (
  arith,
  set_network_address-IsCoherent s.peer i c,
  sct-set_network_address s.peer i,
  handle_connected-IsCoherent i,
  handle_connected-IsCoherent (set_network_address s.peer i),
)

set_sct-IsCoherent : (s : Option Socket) (i : NodeInfo) → IsCoherent i → IsCoherent (set_sct s i)
unfolding set_sct
set_sct-IsCoherent s i c =
    let clear = remove_socket_clears i c in
    let gone = remove_socket-IsCoherent i c in
    adopt-IsCoherent s (record (remove_socket i) { sct = s }) refl
      (record { no_socket = λ _. clear.1; reported = gone.reported })

set_trust-IsCoherent : (t : ℤ) (i : NodeInfo) → IsCoherent i → IsCoherent (set_trust t i)
unfolding set_trust
set_trust-IsCoherent t i c =
    let j = record i { trust = t } in
    let same : IsCoherent j = record { no_socket = c.no_socket; reported = c.reported } in
    ground (arith, same, remove_socket-IsCoherent j same)

update_confirm_status-IsCoherent :
    (i : NodeInfo) → IsCoherent i → IsCoherent (update_confirm_status i)
unfolding update_confirm_status confirm_data
update_confirm_status-IsCoherent i c = ground (
  arith,
  set_status-Reported confirmed i c.reported,
  status-set_status confirmed i,
  sct-set_status confirmed i,
  c.no_socket,
)

not_connected-IsCoherent : (i : NodeInfo) → IsCoherent i → IsCoherent (set_status not_connected i)
not_connected-IsCoherent i c = record {
  no_socket = λ _. status-set_status not_connected i;
  reported = set_status-Reported not_connected i c.reported;
}

reset-IsCoherent : (i : NodeInfo) → IsCoherent i → IsCoherent (reset i)
unfolding reset set_is_local
reset-IsCoherent i c =
    let cleared = set_network_address-IsCoherent null_address _ (set_sct-IsCoherent none i c) in
    let closed = not_connected-IsCoherent _ (set_trust-IsCoherent TrustNode.default _ cleared) in
    record { no_socket = closed.no_socket; reported = closed.reported }

step-IsCoherent : (e : Event) (i : NodeInfo) → Allowed e i → IsCoherent i → IsCoherent (step e i)
unfolding step ban un_ban set_is_local
step-IsCoherent removes_socket i a c = remove_socket-IsCoherent i c
step-IsCoherent bans i a c =
    remove_socket-IsCoherent _ (record { no_socket = c.no_socket; reported = c.reported })
step-IsCoherent un_bans i a c = record { no_socket = c.no_socket; reported = c.reported }
step-IsCoherent confirms i a c = update_confirm_status-IsCoherent i c
step-IsCoherent resets i a c = reset-IsCoherent i c
step-IsCoherent socket_connected i a c = ground (arith, handle_connected-IsCoherent i)
step-IsCoherent (sets_sct s) i a c = set_sct-IsCoherent s i c
step-IsCoherent (sets_trust t) i a c = set_trust-IsCoherent t i c
step-IsCoherent (sets_network_address b) i a c = set_network_address-IsCoherent b i c
step-IsCoherent (sets_is_local b) i a c = record { no_socket = c.no_socket; reported = c.reported }
step-IsCoherent (sets_status s) i a c = record {
  no_socket = λ e. status-set_status s i ∙ a (sym (sct-set_status s i) ∙ e);
  reported = set_status-Reported s i c.reported;
}

run-IsCoherent :
    (es : List Event) (i : NodeInfo) → AllAllowed es i → IsCoherent i → IsCoherent (run es i)
unfolding run
run-IsCoherent [] i a c = c
run-IsCoherent (e ∷ es) i a c = run-IsCoherent es (step e i) a.1 (step-IsCoherent e i a.0 c)

-- From the member initialisers, after any sequence of calls in which setStatus sets another status
-- than `not_connected` only on a peer with a socket: a peer without a socket has the status
-- `not_connected`, and the listeners of statusChaned were last told the status that the peer has.
pub run-initial-IsCoherent : (es : List Event) → AllAllowed es initial → IsCoherent (run es initial)
unfolding told_from
run-initial-IsCoherent es a =
    run-IsCoherent es initial a (record { no_socket = λ _. refl; reported = refl })

-- A call of setStatus with another status on a peer without a socket breaks this.
pub set_status-without_socket :
    (s : NodeCoonectionStatus) (i : NodeInfo)
    → i.sct ≡ none
    → s ≢ not_connected
    → ¬ IsCoherent (set_status s i)
set_status-without_socket s i e other c =
    other (sym (status-set_status s i) ∙ c.no_socket (sct-set_status s i ∙ e))

-- The status `confirmed` is reached only by setStatus from outside, or by updateConfirmStatus
-- from a connected peer.
pub confirmed-step :
    (e : Event) (i : NodeInfo)
    → i.status ≢ confirmed
    → (step e i).status ≡ confirmed
    → (e ≡ sets_status confirmed) ⊎ ((e ≡ confirms) × (i.status ≡ connected))
unfolding step remove_socket ban un_ban reset set_sct adopt set_status set_network_address
    handle_connected set_trust update_confirm_status confirm_data set_is_local
confirmed-step e i n h = ground arith

-- setSct leaves the object with the socket that it was given.
pub sct-set_sct : (s : Option Socket) (i : NodeInfo) → (set_sct s i).sct ≡ s
unfolding set_sct adopt handle_connected
sct-set_sct none i = refl
sct-set_sct (some s) i =
    let bare = record (remove_socket i) { sct = some s } in
    ground (
      arith,
      sct-set_network_address s.peer bare,
      sct-set_status connected (set_network_address s.peer bare),
      sct-set_status connected bare,
    )
