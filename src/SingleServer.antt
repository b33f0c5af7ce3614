-- ===== src/SingleServer.antt =====
-- Heart/DataBaseSpace/singleserver.cpp: registration, login and logout of users, and the validation
-- of the token of a request.
--
-- `now` is the current second and `clock` the current millisecond. What the server needs from
-- outside is a parameter: SHA-256, a new token, and whether an answer could be sent to an address.
pub mod Login
pub mod Logout
pub mod Dispatch
pub mod Guarded
use qt_network_protocol.Prelude.{
  ℕ, List, [], ◌∷◌, ◌++◌, Bool, true, false, ◌&&◌, not, Option, none, some, Dict, lookup, insert,
  length, bytes_eq, if◌then◌else◌, ◌==◌,
}
use qt_network_protocol.HostAddress.{HostAddress, host_address_eq}
use qt_network_protocol.Database.Token.{AccessToken, no_token, token_is_valid, token_equal}
use qt_network_protocol.Database.Object.{DbObject, Hashes, user_member}
use qt_network_protocol.Database.Permission.{
  DataBaseNode, write, read, get_object_raw, add_update_permission,
}
use qt_network_protocol.Cache.{Sql, insert_object, update_object}
use qt_network_protocol.Cache.Change.{is_shared, share}

-- The part of BaseNodeInfo that the server keeps for a connection: the user's id and token.
pub record Session : Type 0 where
  pub id : ℕ
  pub token : AccessToken

pub record SingleServer : Type 0 where
  pub node : DataBaseNode
  pub sessions : Dict HostAddress Session

-- ErrorCodes::Code, those that the server answers with
pub data Code : Type 0 where
  no_error invalid_request internal_error operatio_forbiden user_exits user_not_exits : Code
  user_invalid_passwoed user_not_logged : Code

pub record World : Type 0 where
  -- QCryptographicHash::hash(..., Sha256), and the two constants that are appended
  pub sha256 : List ℕ → List ℕ
  pub quassar_app_soult : List ℕ
  pub singelserversoult : List ℕ
  -- AccessToken(AccessToken::Year)
  pub generate_token : ℕ → AccessToken
  -- Whether sendData to the address returns a hash that is not 0
  pub answers : HostAddress → Bool

-- A UserMember as the code reads it.
pub record User : Type 0 where
  pub object : DbObject
  pub authentication_data : List ℕ
  pub token : AccessToken

-- dynamicCast<UserMember>
unfoldable pub as_user : DbObject → Option User
as_user obj = elim obj.content [
  | user_member auth trust token ↦
      some (record { object = obj; authentication_data = auth; token = token })
  | _ ↦ none
]

-- setAuthenticationData and setSignToken
unfoldable pub set_authentication_data : List ℕ → DbObject → DbObject
set_authentication_data auth obj = elim obj.content [
  | user_member _ trust token ↦ record obj { content = user_member auth trust token }
  | _ ↦ obj
]

unfoldable pub set_sign_token : AccessToken → DbObject → DbObject
set_sign_token token obj = elim obj.content [
  | user_member auth trust _ ↦ record obj { content = user_member auth trust token }
  | _ ↦ obj
]

module _ (sql : Sql) (hashes : Hashes) (world : World) where
  -- SingleServer::hashgenerator, with DataBaseNode::hashgenerator
  unfoldable pub hashgenerator : List ℕ → List ℕ
  hashgenerator pass =
      let salted = pass ++ world.singelserversoult in
      if length salted == 0
      then []
      else world.sha256 (world.sha256 salted ++ world.quassar_app_soult)

  -- The test in loginUser: the token of the request, or else the password.
  unfoldable pub is_authenticated : ℕ → User → User → Bool
  is_authenticated now user local =
      if token_is_valid now user.token && token_equal local.token user.token
      then true
      else bytes_eq local.authentication_data (hashgenerator user.authentication_data)

  -- The end of loginUser, with the token of the stored object: the session is set, and the answer
  -- sent from the stored object, whose password is cleared first. An object of the cache is shared.
  unfoldable pub open_session :
      Bool → DbObject → AccessToken → HostAddress → SingleServer → SingleServer × Code
  open_session shared local token address s =
      let cleared = set_authentication_data [] local in
      let session : Session = record { id = local.address.id; token = token } in
      let s' : SingleServer = record {
        node = record s.node { db = share shared local.db_key cleared s.node.db };
        sessions = insert address session s.sessions;
      } in
      if not (world.answers address) then (s', internal_error) else (s', no_error)

  -- The part of loginUser behind the authentication, for the address of the sender.
  unfoldable pub renew_token :
      ℕ → ℕ → Bool → User → HostAddress → SingleServer → SingleServer × Code
  renew_token now clock shared local address s =
      if not (token_is_valid now local.token)
      then (let token = world.generate_token now in
          let renewed = set_sign_token token local.object in
          let kept = share shared local.object.db_key renewed s.node.db in
          let (c, stored) = update_object sql clock renewed true kept in
          let s' = record s { node = record s.node { db = c } } in
          if not stored then (s', internal_error) else open_session shared renewed token address s')
      else open_session shared local.object local.token address s

  -- SingleServer::loginUser
  unfoldable pub login_user : ℕ → ℕ → User → HostAddress → SingleServer → SingleServer × Code
  login_user now clock user address s =
      if not s.node.has_db
      then (s, internal_error)
      else (let shared = is_shared user.object s.node.db in
          let (c, found) = get_object_raw sql hashes user.object s.node.db in
          let s' = record s { node = record s.node { db = c } } in
          elim found [
            | none ↦ (s', user_not_exits)
            | some obj ↦ elim (as_user obj) [
              | none ↦ (s', user_not_exits)
              | some local ↦
                  if not (is_authenticated now user local)
                  then (s', user_invalid_passwoed)
                  else elim (lookup address s.sessions) [
                    | none ↦ (s', internal_error)
                    | some _ ↦ renew_token now clock shared local address s'
                  ]
            ]
          ])

  -- SingleServer::registerNewUser
  unfoldable pub register_new_user : ℕ → ℕ → User → HostAddress → SingleServer → SingleServer × Code
  register_new_user now clock user address s =
      if not s.node.has_db
      then (s, internal_error)
      else (let (c, found) = get_object_raw sql hashes user.object s.node.db in
          let stored =
            set_authentication_data (hashgenerator user.authentication_data) user.object in
          let (c', inserted) = insert_object sql clock stored true c in
          let granted =
            (add_update_permission sql hashes clock user.object.address.id user.object.address write
              read (record s.node { db = c' })).0 in
          elim found [
            | none ↦
                if not inserted
                then (record s { node = record s.node { db = c' } }, internal_error)
                else login_user now clock user address (record s { node = granted })
            | some obj ↦ elim (as_user obj) [
              | some _ ↦ (record s { node = record s.node { db = c } }, user_exits)
              | none ↦
                  if not inserted
                  then (record s { node = record s.node { db = c' } }, internal_error)
                  else login_user now clock user address (record s { node = granted })
            ]
          ])

  -- SingleServer::logOutUser
  unfoldable pub log_out_user : ℕ → User → HostAddress → SingleServer → SingleServer × Code
  log_out_user now user address s =
      if not s.node.has_db
      then (s, internal_error)
      else (let (c, found) = get_object_raw sql hashes user.object s.node.db in
          let s' = record s { node = record s.node { db = c } } in
          let cleared : Session = record { id = 0; token = no_token } in
          elim found [
            | none ↦ (s', user_not_exits)
            | some obj ↦ elim (as_user obj) [
              | none ↦ (s', user_not_exits)
              | some _ ↦ elim (lookup address s.sessions) [
                | none ↦ (s', internal_error)
                | some session ↦
                    if not (token_is_valid now session.token)
                    then (s', user_not_logged)
                    else if not (token_equal user.token session.token)
                    then (s', user_not_logged)
                    else (record s' { sessions = insert address cleared s.sessions }, no_error)
              ]
            ]
          ])

-- SingleServer::signValidation of a request with a token
unfoldable pub sign_validation : AccessToken → Session → Bool
sign_validation token session = token_equal token session.token
