-- ===== src/SingleServer/Logout.antt =====
-- What a logout leaves behind.
use qt_network_protocol.Prelude.{ℕ, ◌≡◌, refl, true, some, lookup, arith, lookup-insert_self}
use qt_network_protocol.HostAddress.{HostAddress, host_address_eq}
use qt_network_protocol.Database.Token.{no_token, token_equal}
use qt_network_protocol.Database.Object.{Hashes}
use qt_network_protocol.Cache.{Sql}
use qt_network_protocol.SingleServer.{
  Session, SingleServer, no_error, World, User, log_out_user, sign_validation,
}

module _ (sql : Sql) (hashes : Hashes) (world : World) where
  -- After a logout that succeeds the connection has an empty token, which a request without any token
  -- equals: such a request passes the validation as if a user had logged in.
  pub log_out_user-sign_validation :
      (now : ℕ) (user : User) (address : HostAddress) (s : SingleServer)
      → (log_out_user sql hashes world now user address s).1 ≡ no_error
      → let session : Session = record { id = 0; token = no_token } in
        (lookup address (log_out_user sql hashes world now user address s).0.sessions
          ≡ some session)
        × (sign_validation no_token session ≡ true)
  unfolding log_out_user sign_validation token_equal
  log_out_user-sign_validation now user address s done =
      let cleared : Session = record { id = 0; token = no_token } in
      (ground (arith, done, lookup-insert_self address cleared s.sessions), refl)
