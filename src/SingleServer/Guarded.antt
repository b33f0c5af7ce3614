-- ===== src/SingleServer/Guarded.antt =====
-- singleserver.cpp: which packages reach the database.
use qt_network_protocol.Prelude.{ℕ, ◌≡◌, ◌⊎◌, inl, inr, [], false, arith}
use qt_network_protocol.HostAddress.{HostAddress, host_address_eq}
use qt_network_protocol.Node.Parse.{not_processed, processed}
use qt_network_protocol.Database.Token.{AccessToken, no_token, token_equal}
use qt_network_protocol.Database.Object.{DbObject, Hashes}
use qt_network_protocol.Database.Permission.{write, is_allowed, check_permission}
use qt_network_protocol.Database.Operation.{delete_object}
use qt_network_protocol.Database.Checked.{ReadsOnly, check_permission-ReadsOnly}
use qt_network_protocol.Cache.{Sql}
use qt_network_protocol.SingleServer.{
  SingleServer, no_error, World, User, log_out_user, sign_validation,
}
use qt_network_protocol.SingleServer.Logout.{log_out_user-sign_validation}
use qt_network_protocol.SingleServer.Dispatch.{
  delete_request, session_of, after_validation, is_signed, parse_package,
}

module _ (sql : Sql) (hashes : Hashes) (world : World) where
  -- A request to delete whose token is not the connection's, or whose requester may not write the
  -- object, neither writes the database, queues a change, nor emits a signal, and leaves the sessions.
  pub parse_package-ReadsOnly :
      (now clock : ℕ) (token : AccessToken) (obj : DbObject) (address : HostAddress)
      (s : SingleServer)
      → (token_equal token (session_of address s).token ≡ false)
        ⊎ (is_allowed
              (check_permission sql hashes (session_of address s).id obj.address write s.node).1
            ≡ false)
      → let after =
          (parse_package sql hashes world now clock not_processed
            (delete_request token obj)
            address
            s).server in
        ReadsOnly s.node.db after.node.db × (after.sessions ≡ s.sessions)
  unfolding parse_package is_signed sign_validation after_validation delete_object
  parse_package-ReadsOnly now clock token obj address s (inl unsigned) = (
    record {
      calls = ground (arith, unsigned);
      changes = ground (arith, unsigned);
      signals = ground (arith, unsigned);
    },
    ground (arith, unsigned),
  )
  parse_package-ReadsOnly now clock token obj address s (inr denied) =
      let k =
        check_permission-ReadsOnly sql hashes (session_of address s).id obj.address write s.node in
      (
        record {
          calls = ground (arith, denied, k.calls);
          changes = ground (arith, denied, k.changes);
          signals = ground (arith, denied, k.signals);
        },
        ground (arith, denied),
      )

  -- After a logout that succeeds, a request to delete without a token counts as processed: nothing
  -- changes, and no answer is sent.
  pub parse_package-log_out_user :
      (now clock : ℕ) (user : User) (obj : DbObject) (address : HostAddress) (s : SingleServer)
      → (log_out_user sql hashes world now user address s).1 ≡ no_error
      → let left = (log_out_user sql hashes world now user address s).0 in
        parse_package sql hashes world now clock not_processed
          (delete_request no_token obj)
          address
          left
        ≡ record { server = left; answers = []; result = processed }
  unfolding parse_package is_signed after_validation delete_object check_permission session_of
  parse_package-log_out_user now clock user obj address s done =
      let h = log_out_user-sign_validation sql hashes world now user address s done in
      ground (arith, h.0, h.1)
