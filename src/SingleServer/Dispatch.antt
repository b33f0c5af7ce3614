-- ===== src/SingleServer/Dispatch.antt =====
-- singleserver.cpp: parsePackage and workWithUserRequest.
--
-- The result of DataBaseNode::parsePackage is an argument. The calls of badRequest are returned in
-- their order.
use qt_network_protocol.Prelude.{
  ℕ, List, [], ◌∷◌, Bool, true, false, not, none, some, lookup, if◌then◌else◌, ◌==◌, ℤ, pos,
}
use qt_network_protocol.HostAddress.{HostAddress, host_address_eq}
use qt_network_protocol.Node.State.{request_error}
use qt_network_protocol.Node.Parse.{ParserResult, error, not_processed, processed}
use qt_network_protocol.Database.Token.{AccessToken, no_token}
use qt_network_protocol.Database.Object.{DbObject, Hashes}
use qt_network_protocol.Database.Permission.{DbOperationResult, forbidden}
use qt_network_protocol.Database.Operation.{delete_object}
use qt_network_protocol.Cache.{Sql}
use qt_network_protocol.SingleServer.{
  Session, SingleServer, Code, no_error, invalid_request, internal_error, operatio_forbiden, World,
  User, login_user, register_new_user, log_out_user, sign_validation,
}

-- The packages that parsePackage tells apart: an AuthRequest, with whether it is valid and its
-- command; a DeleteObject; another package with a token; one without the interface IToken.
pub data ServerPackage : Type 0 where
  auth_request : Bool → ℕ → User → ServerPackage
  delete_request : AccessToken → DbObject → ServerPackage
  token_package : AccessToken → ServerPackage
  bare_package : ServerPackage

-- A call of badRequest, with the code and the punishment.
pub record Answer : Type 0 where
  pub address : HostAddress
  pub code : Code
  pub diff : ℤ

pub record Parsed : Type 0 where
  pub server : SingleServer
  pub answers : List Answer
  pub result : ParserResult

-- The BaseNodeInfo of the sender.
unfoldable pub session_of : HostAddress → SingleServer → Session
session_of address s = elim (lookup address s.sessions) [
  | none ↦ record { id = 0; token = no_token }
  | some session ↦ session
]

abbrev pub is_internal : Code → Bool
is_internal internal_error = true
is_internal _ = false

abbrev pub is_no_error : Code → Bool
is_no_error no_error = true
is_no_error _ = false

abbrev pub is_forbidden : DbOperationResult → Bool
is_forbidden forbidden = true
is_forbidden _ = false

-- prepareAndSendBadRequest, with what is left to return
abbrev pub refuse : HostAddress → Code → ℤ → SingleServer → Parsed
refuse address code diff s = record {
  server = s;
  answers = record { address = address; code = code; diff = diff } ∷ [];
  result = error;
}

module _ (sql : Sql) (hashes : Hashes) (world : World) where
  -- The chain of commands in workWithUserRequest
  unfoldable pub user_request : ℕ → ℕ → ℕ → User → HostAddress → SingleServer → SingleServer × Code
  user_request now clock cmd user address s =
      if cmd == 1
      then login_user sql hashes world now clock user address s
      else if cmd == 0
      then register_new_user sql hashes world now clock user address s
      else if cmd == 2
      then log_out_user sql hashes world now user address s
      else (s, internal_error)

  -- SingleServer::workWithUserRequest, with the result of parsePackage for what it returns
  unfoldable pub work_with_user_request : ℕ → ℕ → ℕ → User → HostAddress → SingleServer → Parsed
  work_with_user_request now clock cmd user address s =
      let (s', code) = user_request now clock cmd user address s in
      if is_internal code
      then refuse address code (pos 0) s'
      else if is_no_error code
      then record { server = s'; answers = []; result = processed }
      else record (refuse address code (pos 0) s') { result = processed }

  -- What follows the validation of the token.
  unfoldable pub after_validation : ServerPackage → HostAddress → SingleServer → Parsed
  after_validation (delete_request token obj) address s =
      let (node, answer) = delete_object sql hashes (session_of address s).id obj s.node in
      let s' = record s { node = node } in
      if is_forbidden answer
      then refuse address operatio_forbiden request_error s'
      else record { server = s'; answers = []; result = processed }
  after_validation pkg address s = record { server = s; answers = []; result = not_processed }

  -- signValidation of a package; an AuthRequest does not have the interface IToken.
  unfoldable pub is_signed : ServerPackage → Session → Bool
  is_signed (auth_request valid cmd user) session = false
  is_signed (delete_request token obj) session = sign_validation token session
  is_signed (token_package token) session = sign_validation token session
  is_signed bare_package session = false

  -- SingleServer::parsePackage
  unfoldable pub parse_package :
      ℕ → ℕ → ParserResult → ServerPackage → HostAddress → SingleServer → Parsed
  parse_package now clock not_processed (auth_request valid cmd user) address s =
      if not valid
      then refuse address invalid_request request_error s
      else work_with_user_request now clock cmd user address s
  parse_package now clock not_processed pkg address s =
      if not (is_signed pkg (session_of address s))
      then refuse address operatio_forbiden request_error s
      else after_validation pkg address s
  parse_package now clock error pkg address s = record { server = s; answers = []; result = error }
  parse_package now clock processed pkg address s = record {
    server = s;
    answers = [];
    result = processed;
  }
