-- ===== src/SingleServer/Login.antt =====
-- Who can log in, and who cannot any more.
use qt_network_protocol.Prelude.{
  length, ◌≤◌, ◌<◌, ℕ, ◌≡◌, ◌≢◌, refl, sym, ap, ◌∙◌, List, [], ◌∷◌, Bool, true, false, some, lookup,
  insert, contains, nat_eq, arith, lookup-insert_self, bytes_eq, ℤ,
}
use qt_network_protocol.HostAddress.{HostAddress, host_address_eq}
use qt_network_protocol.Database.Token.{AccessToken, token_is_valid, token_equal}
use qt_network_protocol.Database.Object.{DbObject, Hashes, user_member}
use qt_network_protocol.Database.Permission.{get_object_raw}
use qt_network_protocol.Cache.{
  Cache, Sql, Call, update_call, get_all_objects, get_from_cache, update_object, update_object_p,
  update_cache, try_write, write,
}
use qt_network_protocol.Cache.Change.{is_shared, share}
use qt_network_protocol.SingleServer.{
  Session, SingleServer, no_error, user_invalid_passwoed, World, User, as_user,
  set_authentication_data, set_sign_token, is_authenticated, hashgenerator, open_session,
  renew_token, login_user,
}

-- The cache has `obj` for the address of `template`.
pub record IsCached (template obj : DbObject) (c : Cache) : Type 0 where
  pub id : template.address.id ≢ 0
  pub found : lookup template.db_key c.cache ≡ some obj

bytes_eq_refl : (xs : List ℕ) → bytes_eq xs xs ≡ true
bytes_eq_refl [] = refl
bytes_eq_refl (x ∷ xs) = ground (arith, bytes_eq_refl xs)

bytes_eq_nil : (xs : List ℕ) → xs ≢ [] → bytes_eq [] xs ≡ false
bytes_eq_nil [] h = ground (arith, h)
bytes_eq_nil (x ∷ xs) h = refl

module _ (sql : Sql) (hashes : Hashes) (world : World) where
  get_object_raw_cached :
      (template obj : DbObject) (c : Cache)
      → IsCached template obj c
      → (get_object_raw sql hashes template c ≡ (c, some obj)) × (is_shared template c ≡ true)
  unfolding get_object_raw get_all_objects get_from_cache is_shared
  get_object_raw_cached template obj c h =
      (ground (arith, h.id, h.found), ground (arith, h.id, h.found))

  -- A login by password whose user is in the cache and has a token that is still valid.
  login_user_cached :
      (now clock : ℕ) (user local : User) (address : HostAddress) (s : SingleServer)
      (session : Session)
      → s.node.has_db ≡ true
      → IsCached user.object local.object s.node.db
      → as_user local.object ≡ some local
      → is_authenticated sql hashes world now user local ≡ true
      → lookup address s.sessions ≡ some session
      → token_is_valid now local.token ≡ true
      → world.answers address ≡ true
      → login_user sql hashes world now clock user address s
        ≡ open_session sql hashes world true local.object local.token address s
  unfolding login_user renew_token
  login_user_cached now clock user local address s session db h cast auth known valid answers =
      let raw = get_object_raw_cached user.object local.object s.node.db h in
      ground (arith, db, raw.0, raw.1, cast, auth, known, valid, answers)

  login_user_wrong :
      (now clock : ℕ) (user local : User) (address : HostAddress) (s : SingleServer)
      → s.node.has_db ≡ true
      → IsCached user.object local.object s.node.db
      → as_user local.object ≡ some local
      → is_authenticated sql hashes world now user local ≡ false
      → (login_user sql hashes world now clock user address s).1 ≡ user_invalid_passwoed
  unfolding login_user
  login_user_wrong now clock user local address s db h cast auth =
      let raw = get_object_raw_cached user.object local.object s.node.db h in
      ground (arith, db, raw.0, raw.1, cast, auth)

  share_held :
      (key : ℕ) (obj cleared : DbObject) (c : Cache)
      → lookup key c.cache ≡ some obj
      → share true key cleared c ≡ record c { cache = insert key cleared c.cache }
  unfolding share contains
  share_held key obj cleared c h = ground (arith, h)

  by_password :
      (now : ℕ) (user local : User)
      → token_is_valid now user.token ≡ false
      → is_authenticated sql hashes world now user local
        ≡ bytes_eq local.authentication_data
            (hashgenerator sql hashes world user.authentication_data)
  unfolding is_authenticated
  by_password now user local h = ground (arith, h)

  open_session_shared :
      (obj : DbObject) (token : AccessToken) (address : HostAddress) (s : SingleServer)
      → lookup obj.db_key s.node.db.cache ≡ some obj
      → world.answers address ≡ true
      → let opened = open_session sql hashes world true obj token address s in
        (opened.1 ≡ no_error)
        × (opened.0.node.has_db ≡ s.node.has_db)
        × (lookup obj.db_key opened.0.node.db.cache ≡ some (set_authentication_data [] obj))
  unfolding open_session
  open_session_shared obj token address s h answers =
      let cleared = set_authentication_data [] obj in
      ground (
        arith,
        answers,
        share_held obj.db_key obj cleared s.node.db h,
        lookup-insert_self obj.db_key cleared s.node.db.cache,
      )

  -- A user in the cache, who has a token on the server that is still valid, logs in by password over
  -- a connection that takes the answer. The login succeeds, but it clears the password of the object
  -- that it shares with the cache, and the next login with the same password is refused.
  pub login_user_locks_out :
      (now later clock : ℕ) (user : User) (obj : DbObject) (trust : ℤ) (token : AccessToken)
      (address : HostAddress) (session : Session) (s : SingleServer)
      → s.node.has_db ≡ true
      → IsCached user.object obj s.node.db
      → obj.db_key ≡ user.object.db_key
      → obj.content
        ≡ user_member (hashgenerator sql hashes world user.authentication_data) trust token
      → hashgenerator sql hashes world user.authentication_data ≢ []
      → token_is_valid now token ≡ true
      → token_is_valid now user.token ≡ false
      → token_is_valid later user.token ≡ false
      → lookup address s.sessions ≡ some session
      → world.answers address ≡ true
      → let first = login_user sql hashes world now clock user address s in
        (first.1 ≡ no_error)
        × ((login_user sql hashes world later clock user address first.0).1 ≡ user_invalid_passwoed)
  unfolding as_user set_authentication_data
  login_user_locks_out now later clock user obj trust token address session s db h key content
        hashed valid no_token_now no_token_later known answers =
      let hash = hashgenerator sql hashes world user.authentication_data in
      let local : User = record { object = obj; authentication_data = hash; token = token } in
      let cleared : DbObject = record obj { content = user_member [] trust token } in
      let bare : User = record { object = cleared; authentication_data = []; token = token } in
      let held : lookup obj.db_key s.node.db.cache ≡ some obj =
        ap (λ k. lookup k s.node.db.cache) key ∙ h.found in
      let opened = open_session_shared obj token address s held answers in
      let first =
        login_user_cached now clock user local address s session db h (ground (arith, content))
          (by_password now user local no_token_now ∙ bytes_eq_refl hash) known valid answers in
      let after = (open_session sql hashes world true obj token address s).0 in
      let cleared_eq : set_authentication_data [] obj ≡ cleared = ground (arith, content) in
      let h' : IsCached user.object cleared after.node.db = record {
        id = h.id;
        found = ap (λ k. lookup k after.node.db.cache) (sym key) ∙ opened.2 ∙ ap some cleared_eq;
      } in
      let second =
        login_user_wrong later clock user bare address after (opened.1 ∙ db) h' refl
          (by_password later user bare no_token_later ∙ bytes_eq_nil hash hashed) in
      (
        ap (λ p. p.1) first ∙ opened.0,
        ap (λ p. (login_user sql hashes world later clock user address p.0).1) first ∙ second,
      )

  update_object-accepted :
      (clock : ℕ) (obj : DbObject) (c : Cache)
      → ((log : List Call) (call : Call) → sql.accepts log call ≡ true)
      → c.writer_ready ≡ true
      → obj.is_valid ≡ true
      → (update_object sql clock obj true c).1 ≡ true
  unfolding update_object update_object_p update_cache try_write write
  update_object-accepted clock obj c accepts ready valid = ground (
    arith,
    ready,
    valid,
    accepts (update_cache obj c).0.calls (update_call obj true),
    accepts c.calls (update_call obj true),
  )

  renewed_kept :
      (shared : Bool) (key : ℕ) (token : AccessToken) (obj : DbObject) (c : Cache)
      → ((share shared key obj c).writer_ready ≡ c.writer_ready)
        × ((set_sign_token token obj).is_valid ≡ obj.is_valid)
        × ((set_sign_token token obj).address ≡ obj.address)
  unfolding share set_sign_token
  renewed_kept shared key token obj c = ground arith

  -- A request with the bytes of a token that has run out on the server, and an end of its own
  -- choosing, logs in whatever its password is, where the session is known, the database takes all
  -- that is written and the answer can be sent: the connection gets the user's session, with a new
  -- token.
  pub login_user_expired :
      (now clock : ℕ) (user local : User) (address : HostAddress) (session : Session)
      (s : SingleServer) (c : Cache)
      → s.node.has_db ≡ true
      → get_object_raw sql hashes user.object s.node.db ≡ (c, some local.object)
      → as_user local.object ≡ some local
      → local.token.bytes ≡ user.token.bytes
      → length user.token.bytes ≡ 32
      → local.token.duration ≤ now
      → now < user.token.duration
      → lookup address s.sessions ≡ some session
      → c.writer_ready ≡ true
      → local.object.is_valid ≡ true
      → ((log : List Call) (call : Call) → sql.accepts log call ≡ true)
      → world.answers address ≡ true
      → let (after, code) = login_user sql hashes world now clock user address s in
        (code ≡ no_error)
        × (lookup address after.sessions
            ≡ some (record { id = local.object.address.id; token = world.generate_token now }))
  unfolding login_user is_authenticated token_is_valid token_equal renew_token open_session
  login_user_expired now clock user local address session s c db found cast same long over claimed
        known ready valid accepts answers =
      let equal = ap (λ b. bytes_eq b user.token.bytes) same ∙ bytes_eq_refl user.token.bytes in
      let shared = is_shared user.object s.node.db in
      let token = world.generate_token now in
      let renewed = set_sign_token token local.object in
      let keeps = renewed_kept shared local.object.db_key token renewed c in
      let keeps' = renewed_kept shared local.object.db_key token local.object c in
      let kept = share shared local.object.db_key renewed c in
      let stored =
        update_object-accepted clock renewed kept accepts (keeps.0 ∙ ready) (keeps'.1 ∙ valid) in
      let session' : Session = record { id = local.object.address.id; token = token } in
      ground (
        arith,
        db,
        found,
        cast,
        equal,
        long,
        over,
        claimed,
        known,
        answers,
        stored,
        keeps'.2,
        lookup-insert_self address session' s.sessions,
      )
