-- ===== src/Tests/ClientTests.antt =====
-- The single client at concrete inputs.
use qt_network_protocol.Prelude.{◌≡◌, refl, [], ◌∷◌, List, true, nat_eq, pos, replicate}
use qt_network_protocol.Database.Token.{AccessToken, token_is_valid}
use qt_network_protocol.Node.Parse.{not_processed}
use qt_network_protocol.SingleClient.{
  Member, new_client, SingleClient, connected, user_member, dissconnected, parse_package,
  time_out_error, member_is_valid, signal, set_status, connect_to_server, node_connected,
}
use qt_network_protocol.SingleClient.Request.{
  Wire, send_data, login, begin_login, p_login, sign_package_with_token,
}
use qt_network_protocol.SingleClient.Event.{
  Event, connects, node_connects, logs_in, fires, receives, run, step, any_brings_member,
}
use qt_network_protocol.SingleClient.Logined.{run-logined}
use qt_network_protocol.SingleClient.Late.{run-late}
use qt_network_protocol.Tests.Samples.{peer}

abbrev wire : Wire
wire = record { sends = λ _ _ _. 7; hashgenerator = λ bytes. 1 ∷ bytes }

abbrev token : AccessToken
token = record { duration = 500; bytes = replicate 32 7 }

abbrev user : Member
user = record { id = 4; authentication_data = []; trust = pos 100; token = token }

abbrev online : SingleClient
online = record new_client { status = connected; real_server_address = peer; handled = 1 ∷ [] }

-- A login and its answer.
abbrev session : List Event
session =
    connects
    ∷ node_connects peer
    ∷ logs_in 4 (9 ∷ [])
    ∷ receives not_processed (user_member user) 7
    ∷ []

run-logined_example : any_brings_member 100 session ≡ true
unfolding run step connect_to_server signal set_status node_connected login begin_login p_login
    send_data sign_package_with_token parse_package member_is_valid token_is_valid
run-logined_example = run-logined wire 100 session refl

run-late_example :
    let late =
      run wire 100 (connects ∷ node_connects peer ∷ logs_in 4 (9 ∷ []) ∷ fires 0 ∷ []) new_client in
    (late.status ≡ dissconnected)
    × (late.real_server_address ≡ peer)
    × (late.last_error ≡ time_out_error)
unfolding connect_to_server signal set_status node_connected login begin_login p_login send_data
    sign_package_with_token
run-late_example = run-late wire 100 4 (9 ∷ []) peer new_client refl refl refl
