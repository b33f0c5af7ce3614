-- ===== src/Tests/InfoTests.antt =====
-- Addresses and peers at concrete inputs.
use qt_network_protocol.Prelude.{[], ◌∷◌, some, arith}
use qt_network_protocol.NodeInfo.{
  initial, confirmed, set_sct, adopt, handle_connected, remove_socket, set_network_address,
  set_status,
}
use qt_network_protocol.NodeInfo.Status.{
  sets_status, sets_sct, bans, IsCoherent, run, step, run-initial-IsCoherent,
}
use qt_network_protocol.Tests.Samples.{socket}

run-initial-IsCoherent_example :
    IsCoherent (run (sets_sct (some socket) ∷ sets_status confirmed ∷ bans ∷ []) initial)
unfolding step set_sct adopt handle_connected remove_socket set_network_address set_status
run-initial-IsCoherent_example =
    run-initial-IsCoherent (sets_sct (some socket) ∷ sets_status confirmed ∷ bans ∷ [])
      (tt, ((λ e. ground (arith, e)), (tt, tt)))
