-- ===== src/Cache/Fresh.antt =====
-- What the cache serves after an update or a deletion.
use qt_network_protocol.Prelude.{
  ℕ, ◌≡◌, ◌≢◌, refl, ap, ◌∙◌, [], ◌∷◌, Bool, true, false, none, some, Dict, nat_eq, lookup,
  contains, insert, if◌then◌else◌, ◌==◌, arith, ==_iff, Option-cases, Bool-cases, inl, inr,
  lookup-remove, lookup-insert_self,
}
use qt_network_protocol.Database.Object.{DbObject}
use qt_network_protocol.Cache.{
  Cache, CacheAction, cache_action_eq, Sql, update_action, update_cache, copy_from, write,
  try_write, save_change, save_changes, push_to_queue, global_update_data_base,
  global_update_data_base_private, emit, update_object_p, update_object, delete_object_p,
  delete_object, delete_from_cache, get_from_cache, get_all_objects,
}

-- An object that the cache has is replaced.
pub update_cache_hit :
    (obj : DbObject) (c : Cache)
    → obj.is_cached ≡ true
    → contains obj.db_key c.cache ≡ true
    → update_cache obj c ≡ (record c { cache = insert obj.db_key obj c.cache }, true)
unfolding update_cache copy_from contains
update_cache_hit obj c h k = elim (Option-cases (lookup obj.db_key c.cache)) [
  | inl e ↦ ground (arith, e, h, k)
  | inr (x, e) ↦ ground (arith, e, h, ==_iff x.cmd obj.cmd)
]

-- All pending objects are valid.
abbrev pub AllPendingValid : Dict CacheAction DbObject → Type 0
AllPendingValid [] = Unit {0}
AllPendingValid ((_, obj) ∷ rest) = (obj.is_valid ≡ true) × AllPendingValid rest

AllPendingValid-if :
    (t : Bool) (d e : Dict CacheAction DbObject)
    → AllPendingValid d
    → AllPendingValid e
    → AllPendingValid (if t then d else e)
AllPendingValid-if true d e h k = h
AllPendingValid-if false d e h k = k

AllPendingValid-insert :
    (a : CacheAction) (obj : DbObject) (d : Dict CacheAction DbObject)
    → obj.is_valid ≡ true
    → AllPendingValid d
    → AllPendingValid (insert a obj d)
unfolding insert
AllPendingValid-insert a obj [] v h = (v, tt)
AllPendingValid-insert a obj ((b, x) ∷ d) v h =
    AllPendingValid-if (cache_action_eq.beq b a) ((a, obj) ∷ d) ((b, x) ∷ insert a obj d) (v, h.1)
      (h.0, AllPendingValid-insert a obj d v h.1)

module _ (sql : Sql) where
  save_change-cache :
      (a : CacheAction) (obj : DbObject) (c : Cache)
      → obj.is_valid ≡ true
      → (save_change sql a obj c).cache ≡ c.cache
  unfolding save_change write
  save_change-cache a obj c v = ground (arith, v)

  save_changes-cache :
      (d : Dict CacheAction DbObject) (c : Cache)
      → AllPendingValid d
      → (save_changes sql d c).cache ≡ c.cache
  unfolding save_changes
  save_changes-cache [] c h = refl
  save_changes-cache ((a, obj) ∷ d) c h =
      save_changes-cache d (save_change sql a obj c) h.1 ∙ save_change-cache a obj c h.0

  global_update_data_base-cache :
      (now mode : ℕ) (c : Cache)
      → AllPendingValid c.changes
      → (global_update_data_base sql now mode c).cache ≡ c.cache
  unfolding global_update_data_base global_update_data_base_private
  global_update_data_base-cache now mode c h = ground (arith, save_changes-cache c.changes c h)

  cache-update_object :
      (now : ℕ) (obj : DbObject) (wait : Bool) (c : Cache)
      → obj.is_cached ≡ true
      → contains obj.db_key c.cache ≡ true
      → AllPendingValid c.changes
      → (update_object sql now obj wait c).1 ≡ true
      → (update_object sql now obj wait c).0.cache ≡ insert obj.db_key obj c.cache
  unfolding update_object update_object_p try_write write push_to_queue emit
  cache-update_object now obj wait c cached h pending done =
      let held = record c { cache = insert obj.db_key obj c.cache } in
      let queued = push_to_queue obj update_action held in
      elim (Bool-cases obj.is_valid) [
        | inl v ↦
            let kept =
              global_update_data_base-cache now c.mode queued
                (AllPendingValid-insert update_action obj c.changes v pending) in
            ground (arith, update_cache_hit obj c cached h, done, v, kept)
        | inr v ↦ ground (arith, done, v)
      ]

  -- An update of a valid object that the cache has, if it returns true, is what the cache gives for
  -- the object's address from then on, while all pending objects are valid.
  pub get_all_objects-update_object :
      (now : ℕ) (obj : DbObject) (wait : Bool) (c : Cache)
      → obj.is_cached ≡ true
      → obj.address.id ≢ 0
      → contains obj.db_key c.cache ≡ true
      → AllPendingValid c.changes
      → (update_object sql now obj wait c).1 ≡ true
      → get_all_objects sql obj (update_object sql now obj wait c).0
        ≡ ((update_object sql now obj wait c).0, some (obj ∷ []))
  unfolding get_all_objects get_from_cache
  get_all_objects-update_object now obj wait c cached id h pending done = ground (
    arith,
    id,
    cache-update_object now obj wait c cached h pending done,
    lookup-insert_self obj.db_key obj c.cache,
    ap (lookup obj.db_key) (cache-update_object now obj wait c cached h pending done),
  )

  -- After deleteObject, whatever the database says to it, the cache has nothing under the object's
  -- key, and under every other key what it had.
  pub delete_object-cache :
      (obj : DbObject) (wait : Bool) (key : ℕ) (c : Cache)
      → lookup key (delete_object sql obj wait c).0.cache
        ≡ (if obj.db_key == key then none else lookup key c.cache)
  unfolding delete_object delete_object_p try_write write push_to_queue delete_from_cache emit
  delete_object-cache obj wait key c = ground (arith, lookup-remove obj.db_key key c.cache)
