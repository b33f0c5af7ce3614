-- ===== src/SingleClient/Event.antt =====
-- What can happen to the client of singleclient.cpp, in any order.
use qt_network_protocol.Prelude.{
  ℕ, zero, suc, Option, List, [], ◌∷◌, Bool, false, ◌&&◌, ◌||◌, none, some,
}
use qt_network_protocol.HostAddress.{HostAddress}
use qt_network_protocol.Database.Token.{token_is_valid}
use qt_network_protocol.Node.Parse.{ParserResult, not_processed}
use qt_network_protocol.SingleClient.{
  Member, member_is_valid, Outgoing, ClientTimer, SingleClient, emit_request_error, fire,
  node_connected, node_disconnected, node_error_occured, connect_to_server, disconnect_from_server,
  Incoming, user_member, parse_package,
}
use qt_network_protocol.SingleClient.Request.{
  Wire, login, login_member, signup, logout, remove_user, subscribe, unsubscribe, rest_request,
}

-- The calls of the user, what the network reports, and the timers, by their place in the list of
-- those that wait.
pub data Event : Type 0 where
  connects disconnects logs_out removes_user : Event
  logs_in signs_up : ℕ → List ℕ → Event
  logs_in_as : Member → Event
  subscribes unsubscribes : ℕ → Event
  requests : Outgoing → ℕ → Event
  node_connects : HostAddress → Event
  node_disconnects node_fails : Event
  errors : ℕ → Event
  receives : ParserResult → Incoming → ℕ → Event
  fires : ℕ → Event

-- An event that brings a valid member with a valid token, not taken by the parent.
abbrev pub brings_member : ℕ → Event → Bool
brings_member now (receives not_processed (user_member m) _) =
    member_is_valid m && token_is_valid now m.token
brings_member now _ = false

abbrev pub any_brings_member : ℕ → List Event → Bool
any_brings_member now [] = false
any_brings_member now (e ∷ es) = brings_member now e || any_brings_member now es

-- The timer at a place of the list, and the list without it.
unfoldable pub timer_at : ℕ → List ClientTimer → Option ClientTimer
timer_at k [] = none
timer_at zero (t ∷ ts) = some t
timer_at (suc k) (t ∷ ts) = timer_at k ts

unfoldable pub without_timer : ℕ → List ClientTimer → List ClientTimer
without_timer k [] = []
without_timer zero (t ∷ ts) = ts
without_timer (suc k) (t ∷ ts) = t ∷ without_timer k ts

module _ (wire : Wire) (now : ℕ) where
  unfoldable pub step : Event → SingleClient → SingleClient
  step connects c = (connect_to_server c).0
  step disconnects c = disconnect_from_server c
  step logs_out c = (logout wire now c).0
  step removes_user c = (remove_user wire now c).0
  step (logs_in user password) c = (login wire now user password c).0
  step (signs_up user password) c = (signup wire now user password c).0
  step (logs_in_as m) c = (login_member wire now m c).0
  step (subscribes id) c = (subscribe wire now id c).0
  step (unsubscribes id) c = (unsubscribe wire now id c).0
  step (requests request handler) c = (rest_request wire now request handler c).0
  step (node_connects address) c = node_connected address c
  step node_disconnects c = node_disconnected c
  step node_fails c = node_error_occured c
  step (errors code) c = emit_request_error code c
  step (receives parent pkg trigger_hash) c = (parse_package now parent pkg trigger_hash c).0
  step (fires k) c = elim (timer_at k c.timers) [
    | none ↦ c
    | some t ↦ fire t (record c { timers = without_timer k c.timers })
  ]

  unfoldable pub run : List Event → SingleClient → SingleClient
  run [] c = c
  run (e ∷ es) c = run es (step e c)
