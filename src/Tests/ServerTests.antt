-- ===== src/Tests/ServerTests.antt =====
-- The single server at concrete inputs.
use qt_network_protocol.Prelude.{
  inl, ◌≡◌, refl, ap, [], ◌∷◌, true, some, lookup, nat_eq, arith, ℤ, length, replicate,
}
use qt_network_protocol.HostAddress.{host_address_eq, equal}
use qt_network_protocol.Database.Token.{AccessToken, no_token, token_is_valid, token_equal}
use qt_network_protocol.Database.Object.{DbObject, user_member}
use qt_network_protocol.Database.Permission.{get_object_raw}
use qt_network_protocol.Cache.{get_all_objects, get_from_cache}
use qt_network_protocol.SingleServer.{
  Session, SingleServer, no_error, user_invalid_passwoed, World, User, login_user, hashgenerator,
  as_user,
}
use qt_network_protocol.SingleServer.Login.{login_user_locks_out, login_user_expired}
use qt_network_protocol.Node.Parse.{not_processed}
use qt_network_protocol.Database.Checked.{ReadsOnly}
use qt_network_protocol.SingleServer.Dispatch.{parse_package, delete_request, session_of}
use qt_network_protocol.SingleServer.Guarded.{parse_package-ReadsOnly}
use qt_network_protocol.Tests.Samples.{peer}
use qt_network_protocol.Tests.CacheSamples.{hashes, thing, readable, data_base_node, eager_cache}

abbrev world : World
world = record {
  sha256 = λ bytes. 1 ∷ bytes;
  quassar_app_soult = 2 ∷ [];
  singelserversoult = 3 ∷ [];
  generate_token = λ now. no_token;
  answers = λ _. true;
}

-- A token that ends at second 500.
abbrev year_token : AccessToken
year_token = record { duration = 500; bytes = replicate 32 7 }

-- The user 4 with the password 9, as stored and as sent.
abbrev stored_user : DbObject
stored_user = record (thing 4) {
  content = user_member (1 ∷ 1 ∷ 9 ∷ 3 ∷ 2 ∷ []) (ℤ.pos 0) year_token;
}

abbrev user : User
user = record { object = thing 4; authentication_data = 9 ∷ []; token = no_token }

abbrev session : Session
session = record { id = 4; token = year_token }

abbrev server : SingleServer
server = record {
  node = record data_base_node { db = record eager_cache { cache = (4, stored_user) ∷ [] } };
  sessions = (peer, session) ∷ [];
}

login_user_locks_out_example :
    let first = login_user readable hashes world 100 5 user peer server in
    (first.1 ≡ no_error)
    × ((login_user readable hashes world 200 5 user peer first.0).1 ≡ user_invalid_passwoed)
unfolding lookup hashgenerator token_is_valid equal
login_user_locks_out_example =
    login_user_locks_out readable hashes world 100 200 5 user stored_user (ℤ.pos 0) year_token peer
      session server refl (record { id = omega arith; found = refl }) refl refl
      (λ e. omega (arith, ap length e)) refl refl refl refl refl

-- A request of the same user with the stored token, a false password, and a later end.
abbrev forged : User
forged = record {
  object = thing 4;
  authentication_data = [];
  token = record { duration = 900; bytes = replicate 32 7 };
}

login_user_expired_example :
    let (after, code) = login_user readable hashes world 600 5 forged peer server in
    (code ≡ no_error) × (lookup peer after.sessions ≡ some (record { id = 4; token = no_token }))
unfolding lookup get_object_raw get_all_objects get_from_cache as_user equal
login_user_expired_example =
    login_user_expired readable hashes world 600 5 forged
      (record {
        object = stored_user;
        authentication_data = 1 ∷ 1 ∷ 9 ∷ 3 ∷ 2 ∷ [];
        token = year_token;
      })
      peer session server server.node.db refl refl refl refl refl (omega arith) (omega arith) refl
      refl refl (λ log call. refl) refl

abbrev leaving : User
leaving = record { object = thing 4; authentication_data = []; token = year_token }

-- A request to delete the user with a token that is not the session's.
parse_package-ReadsOnly_example :
    let after =
      (parse_package readable hashes world 100 5 not_processed
        (delete_request no_token (thing 4))
        peer
        server).server in
    ReadsOnly server.node.db after.node.db × (after.sessions ≡ server.sessions)
unfolding token_equal session_of lookup equal
parse_package-ReadsOnly_example =
    parse_package-ReadsOnly readable hashes world 100 5 no_token (thing 4) peer server (inl refl)
