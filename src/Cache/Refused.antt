-- ===== src/Cache/Refused.antt =====
-- An insertion that the database refuses.
use qt_network_protocol.Prelude.{
  ℕ, ◌≡◌, ◌≢◌, [], ◌∷◌, Bool, true, false, some, nat_eq, contains, arith, lookup-insert_self,
}
use qt_network_protocol.Database.Object.{DbObject}
use qt_network_protocol.Cache.{
  Cache, Sql, insert_call, force, insert_to_cache, write, try_write, insert_object_p, insert_object,
  get_from_cache, get_all_objects,
}

module _ (sql : Sql) where
  -- In the mode that writes at once, an insertion that the database refuses returns false, but the
  -- object stays in the cache, which from then on gives it for its address as if it were stored.
  pub insert_object_refused :
      (now : ℕ) (obj : DbObject) (wait : Bool) (c : Cache)
      → c.mode ≡ force
      → c.writer_ready ≡ true
      → obj.is_valid ≡ true
      → obj.is_cached ≡ true
      → obj.address.id ≢ 0
      → contains obj.db_key c.cache ≡ false
      → sql.accepts c.calls (insert_call obj wait) ≡ false
      → let refused = insert_object sql now obj wait c in
        (refused.1 ≡ false) × (get_all_objects sql obj refused.0 ≡ (refused.0, some (obj ∷ [])))
  unfolding insert_object insert_object_p insert_to_cache try_write write get_all_objects
      get_from_cache
  insert_object_refused now obj wait c mode ready valid cached id h refusal =
      ground (
        arith,
        mode,
        ready,
        valid,
        cached,
        id,
        h,
        refusal,
        lookup-insert_self obj.db_key obj c.cache,
      )
