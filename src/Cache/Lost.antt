-- ===== src/Cache/Lost.antt =====
-- What becomes of the queue of pending changes: over two updates in the mode Default, which
-- ISqlDBCache has and no class of its own uses, and over a deletion in the mode Force, which
-- SqlDBCache has.
use qt_network_protocol.Prelude.{
  ℕ, ◌+◌, ◌≤◌, ◌≡◌, ap, [], ◌∷◌, ◌++◌, Bool, true, Dict, nat_eq, contains, insert, arith,
  append_assoc, lookup-insert,
}
use qt_network_protocol.Database.Object.{DbObject}
use qt_network_protocol.Cache.{
  Cache, cache_action_eq, Sql, update_action, update_call, item_changed, default_mode,
  push_to_queue, save_change, save_changes, write, global_update_data_base,
  global_update_data_base_private, emit, update_object_p, update_object, prepare_for_delete, force,
  delete_object, delete_object_p, delete_from_cache, try_write, insert_object, insert_object_p,
  insert_to_cache, insert_call, delete_call,
}
use qt_network_protocol.Cache.Fresh.{update_cache_hit}

-- The object is valid, of a cached class, and in the cache.
pub record IsHeld (obj : DbObject) (c : Cache) : Type 0 where
  pub valid : obj.is_valid ≡ true
  pub cached : obj.is_cached ≡ true
  pub held : contains obj.db_key c.cache ≡ true

-- The cache writes behind, and the interval since the last writing has not passed.
pub record IsWaiting (now : ℕ) (c : Cache) : Type 0 where
  pub lazy : c.mode ≡ default_mode
  pub early : now ≤ c.update_interval + c.last_update_time

module _ (sql : Sql) where
  abbrev queued : DbObject → Cache → Cache
  queued obj c = record c {
    cache = insert obj.db_key obj c.cache;
    changes = insert update_action obj c.changes;
    signals = c.signals ++ (item_changed obj ∷ []);
  }

  update_object-queued :
      (now : ℕ) (obj : DbObject) (wait : Bool) (c : Cache)
      → IsHeld obj c
      → IsWaiting now c
      → update_object sql now obj wait c ≡ (queued obj c, true)
  unfolding update_object update_object_p push_to_queue global_update_data_base emit
  update_object-queued now obj wait c h w =
      ground (arith, h.valid, w.lazy, w.early, update_cache_hit obj c h.cached h.held)

  contains-insert :
      (k j : ℕ) (v : DbObject) (d : Dict ℕ DbObject)
      → contains j d ≡ true
      → contains j (insert k v d) ≡ true
  unfolding contains
  contains-insert k j v d h = ground (arith, h, lookup-insert k j v d)

  one_pending :
      (last : ℕ) (b : DbObject) (c : Cache)
      → c.writer_ready ≡ true
      → b.is_valid ≡ true
      → c.changes ≡ (update_action, b) ∷ []
      → (prepare_for_delete sql last c).calls ≡ c.calls ++ (update_call b true ∷ [])
  unfolding prepare_for_delete global_update_data_base global_update_data_base_private save_changes
      save_change write
  one_pending last b c ready valid e = ground (arith, ready, valid, e)

  -- Two updates of objects that the cache has, before the interval has passed: both return true,
  -- but when everything is written to the database, only the second object is.
  pub update_object_lost :
      (now later last : ℕ) (a b : DbObject) (wait : Bool) (c : Cache)
      → c.writer_ready ≡ true
      → c.changes ≡ []
      → IsHeld a c
      → IsHeld b c
      → IsWaiting now c
      → IsWaiting later c
      → let first = update_object sql now a wait c in
        let second = update_object sql later b wait first.0 in
        (first.1 ≡ true)
        × (second.1 ≡ true)
        × ((prepare_for_delete sql last second.0).calls ≡ c.calls ++ (update_call b true ∷ []))
  unfolding insert
  update_object_lost now later last a b wait c ready empty ha hb w w' =
      let first = update_object-queued now a wait c ha w in
      let hb' : IsHeld b (queued a c) = record {
        valid = hb.valid;
        cached = hb.cached;
        held = contains-insert a.db_key b.db_key a c.cache hb.held;
      } in
      let w'' : IsWaiting later (queued a c) = record { lazy = w'.lazy; early = w'.early } in
      let second = update_object-queued later b wait (queued a c) hb' w'' in
      let changes : (queued b (queued a c)).changes ≡ (update_action, b) ∷ [] =
        ap (λ d. insert update_action b (insert update_action a d)) empty in
      let written = one_pending last b (queued b (queued a c)) ready hb.valid changes in
      ground (arith, first, second, written)

  -- A cache that writes through, as SqlDBCache does, whose queue is empty and which has a writer: an
  -- valid object is deleted, and then one is inserted, which may be the same. Whatever the writer
  -- answers, it is called for both at once, and once more for the deletion when the cache is closed,
  -- after the insertion.
  pub delete_object_again :
      (now last : ℕ) (a b : DbObject) (wait wait' : Bool) (c : Cache)
      → c.mode ≡ force
      → c.writer_ready ≡ true
      → c.changes ≡ []
      → a.is_valid ≡ true
      → b.is_valid ≡ true
      → let removed = (delete_object sql a wait c).0 in
        let stored = (insert_object sql now b wait' removed).0 in
        (prepare_for_delete sql last stored).calls
        ≡ c.calls ++ (delete_call a wait ∷ insert_call b wait' ∷ delete_call a true ∷ [])
  unfolding delete_object delete_object_p delete_from_cache push_to_queue try_write write emit
      insert_object insert_object_p insert_to_cache prepare_for_delete global_update_data_base
      global_update_data_base_private save_changes save_change insert
  delete_object_again now last a b wait wait' c through ready empty valid valid' = ground (
    arith,
    through,
    ready,
    empty,
    valid,
    valid',
    append_assoc c.calls (delete_call a wait ∷ []) (insert_call b wait' ∷ []),
    append_assoc c.calls (delete_call a wait ∷ insert_call b wait' ∷ []) (delete_call a true ∷ []),
  )
