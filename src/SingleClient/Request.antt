-- ===== src/SingleClient/Request.antt =====
-- singleclient.cpp: the requests of the client's user.
pub mod Answer
use qt_network_protocol.Prelude.{
  ℕ, List, [], ◌∷◌, ◌++◌, Bool, true, false, ◌&&◌, ◌||◌, not, Option, none, some, nat_eq, insert,
  set_insert, set_remove, if◌then◌else◌, ◌==◌, length,
}
use qt_network_protocol.HostAddress.{HostAddress}
use qt_network_protocol.Database.Token.{AccessToken, no_token, token_is_valid, token_equal}
use qt_network_protocol.SingleClient.{
  ClientStatus, connected, loginning, logined, below, Member, no_member, member_is_valid, Outgoing,
  log_in, sign_up, log_out, delete_object, subscribe_to, unsubscribe_from, subscribe_list, forget,
  SingleClient, set_status, reset_user,
}

-- What DataBaseNode::sendData returns, for the requests that were sent before.
pub record Wire : Type 0 where
  pub sends : List (HostAddress × Outgoing) → HostAddress → Outgoing → ℕ
  -- DataBaseNode::hashgenerator
  pub hashgenerator : List ℕ → List ℕ

-- signPackageWithToken: of the requests only DeleteObject has the interface IToken; its token is set
-- to the member's, if that is valid.
unfoldable pub sign_package_with_token : ℕ → Outgoing → SingleClient → Option Outgoing
sign_package_with_token now (delete_object id token) c =
    if not (token_is_valid now c.member.token) then none else some (delete_object id c.member.token)
sign_package_with_token now request c = some request

module _ (wire : Wire) (now : ℕ) where
  -- SingleClient::sendData to the server
  unfoldable pub send_data : Outgoing → SingleClient → SingleClient × ℕ
  send_data request c = elim (sign_package_with_token now request c) [
    | none ↦ (c, 0)
    | some signed ↦ (
      record c { sent = c.sent ++ ((c.real_server_address, signed) ∷ []) },
      wire.sends c.sent c.real_server_address signed,
    )
  ]

  -- SingleClient::p_login. A user id of 0 stands for the empty string.
  unfoldable pub p_login : ℕ → List ℕ → SingleClient → SingleClient × Bool
  p_login user_id hash_password c =
      let id = if user_id == 0 then c.member.id else user_id in
      let base = record no_member { id = id } in
      let (by_token, token_hash) = send_data (log_in (record base { token = c.member.token })) c in
      let (by_password, password_hash) =
        send_data (log_in (record base { authentication_data = hash_password })) c in
      if (user_id == 0 || length hash_password == 0) && not (member_is_valid c.member)
      then (c, false)
      else if length hash_password == 0
      then (if not (token_is_valid now c.member.token)
          then (c, false)
          else (by_token, not (token_hash == 0)))
      else (by_password, not (password_hash == 0))

  -- SingleClient::p_signup
  unfoldable pub p_signup : ℕ → List ℕ → SingleClient → SingleClient × Bool
  p_signup user_id hash_password c =
      let user = record no_member { id = user_id; authentication_data = hash_password } in
      let (c', hash) = send_data (sign_up user) c in (c', not (hash == 0))

  -- The end of login and signup.
  unfoldable pub begin_login : SingleClient × Bool → SingleClient × Bool
  begin_login (c, done) =
      if not done
      then (c, false)
      else ((if below c.status loginning then set_status loginning c else c), true)

  -- SingleClient::login by user and password
  unfoldable pub login : ℕ → List ℕ → SingleClient → SingleClient × Bool
  login user_id raw_password c =
      if below c.status connected
      then (c, false)
      else begin_login (p_login user_id (wire.hashgenerator raw_password) c)

  -- SingleClient::login of a member, for a client that is logged in or not
  unfoldable pub login_member : Member → SingleClient → SingleClient × Bool
  login_member member_data c =
      if token_equal member_data.token c.member.token
      then (if not (below c.status logined) then (c, true) else login 0 [] c)
      else login 0 [] (record c { member = member_data })

  -- SingleClient::signup
  unfoldable pub signup : ℕ → List ℕ → SingleClient → SingleClient × Bool
  signup user_id raw_password c =
      if below c.status connected
      then (c, false)
      else begin_login (p_signup user_id (wire.hashgenerator raw_password) c)

  -- SingleClient::logout
  unfoldable pub logout : SingleClient → SingleClient × Bool
  logout c =
      if below c.status logined
      then (c, false)
      else (let (c', hash) = send_data (log_out c.member) c in
          if hash == 0 then (c', false) else (reset_user c', true))

  -- SingleClient::removeUser
  unfoldable pub remove_user : SingleClient → SingleClient × Bool
  remove_user c =
      if below c.status logined
      then (c, false)
      else (let (c', hash) = send_data (delete_object c.member.id no_token) c in
          (c', not (hash == 0)))

  -- SingleClient::subscribe
  unfoldable pub subscribe : ℕ → SingleClient → SingleClient × Bool
  subscribe id c =
      if below c.status logined
      then (c, false)
      else (let (c', hash) = send_data (subscribe_to id) c in
          if hash == 0
          then (c', false)
          else (record c' { subscribes = set_insert id c'.subscribes }, true))

  -- SingleClient::unsubscribe
  unfoldable pub unsubscribe : ℕ → SingleClient → SingleClient × Bool
  unsubscribe id c =
      if below c.status logined
      then (c, false)
      else (let (c', hash) = send_data (unsubscribe_from id) c in
          if hash == 0
          then (c', false)
          else (record c' { subscribes = set_remove id c'.subscribes }, true))

  -- SingleClient::restRequest
  unfoldable pub rest_request : Outgoing → ℕ → SingleClient → SingleClient × Bool
  rest_request request handler c = elim (sign_package_with_token now request c) [
    | none ↦ (c, false)
    | some signed ↦
        let (c', hash) = send_data signed c in
        if hash == 0 then (c', false) else (
          record c' {
            handlers_cache = insert hash handler c'.handlers_cache;
            timers = c'.timers ++ (forget hash ∷ []);
          },
          true,
        )
  ]

  -- SingleClient::syncSybscribeListWithServer
  unfoldable pub sync_sybscribe_list_with_server : ℕ → SingleClient → SingleClient × Bool
  sync_sybscribe_list_with_server handler c = rest_request subscribe_list handler c
