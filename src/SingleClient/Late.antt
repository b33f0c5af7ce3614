-- ===== src/SingleClient/Late.antt =====
-- singleclient.cpp: the job of setStatus's timer when the client has gone on in the meantime.
use qt_network_protocol.Prelude.{ℕ, ◌≡◌, List, [], ◌∷◌, true, arith}
use qt_network_protocol.HostAddress.{HostAddress}
use qt_network_protocol.SingleClient.{
  SingleClient, dissconnected, time_out_error, connect_to_server, node_connected, set_status,
  signal, fire, handle_error, emit_request_error,
}
use qt_network_protocol.SingleClient.Request.{Wire, login, begin_login, p_login, send_data}
use qt_network_protocol.SingleClient.Event.{
  connects, node_connects, logs_in, fires, timer_at, without_timer, step, run,
}

-- A client without timers that connects, is connected, and sends a login is put back by the timer
-- of the connection to disconnected, with a time-out error, though the server is still connected
-- and the login is not answered.
pub run-late :
    (wire : Wire) (now user : ℕ) (password : List ℕ) (address : HostAddress) (c : SingleClient)
    → c.status ≡ dissconnected
    → c.timers ≡ []
    → (login wire now user password (node_connected address (connect_to_server c).0)).1 ≡ true
    → let late =
        run wire now (connects ∷ node_connects address ∷ logs_in user password ∷ fires 0 ∷ []) c in
      (late.status ≡ dissconnected)
      × (late.real_server_address ≡ address)
      × (late.last_error ≡ time_out_error)
unfolding run step login begin_login p_login send_data timer_at without_timer fire handle_error
    emit_request_error connect_to_server node_connected set_status signal
run-late wire now user password address c down none_waits sent = (
  ground (arith, down, none_waits, sent),
  ground (arith, down, none_waits, sent),
  ground (arith, down, none_waits, sent),
)
