-- ===== src/Cache.antt =====
-- Heart/DataBaseSpace/isqldbcache.* and sqldbcache.*: the cache of database objects that writes
-- behind.
--
-- The database behind the SqlDBWriter is the parameter `Sql`: what a call returns, given the calls
-- before it. The class of the cache is SqlDBCache, which is built with HEART_DB_CACHE only; without
-- it no object is cached, and the operations are those of SqlDB (Cache/Direct). Both classes have the
-- mode Force; the mode Default is that of a class of an application.
--
-- A call that does not wait for the database may return true at once. Objects in the cache are
-- clones, so an object is a value; `change_objects` writes out where the code shares one.
pub mod Direct
pub mod Lost
pub mod Refused
pub mod Fresh
pub mod Change
use qt_network_protocol.Prelude.{
  ℕ, ◌+◌, ◌/◌, ◌%◌, ◌≡◌, ◌↔◌, List, [], ◌∷◌, ◌++◌, Bool, true, false, ◌&&◌, ◌||◌, not, Option, none,
  some, Dict, Eq, nat_eq, lookup, contains, insert, remove, if◌then◌else◌, ◌==◌, ltb, arith,
}
use qt_network_protocol.Database.Object.{DbObject, DbAddress, db_address_is_valid}

-- enum class CacheAction
pub data CacheAction : Type 0 where
  no_action insert_action update_action delete_action : CacheAction

abbrev pub action_equal : CacheAction → CacheAction → Bool
action_equal no_action no_action = true
action_equal insert_action insert_action = true
action_equal update_action update_action = true
action_equal delete_action delete_action = true
action_equal _ _ = false

pub action_equal_iff : (a b : CacheAction) → (action_equal a b ≡ true) ↔ (a ≡ b)
action_equal_iff a b = ground arith

instance abbrev pub cache_action_eq : Eq CacheAction
cache_action_eq = record { beq = action_equal; beq_iff = action_equal_iff }

-- A call of the writer, with its argument `wait`.
pub data Call : Type 0 where
  insert_call update_call delete_call : DbObject → Bool → Call

-- The database: what the writer returns for a call, and the objects that a query selects, where it
-- succeeds.
pub record Sql : Type 0 where
  pub accepts : List Call → Call → Bool
  pub selects : List Call → DbObject → Option (List DbObject)

-- enum class SqlDBCasheWriteMode: its flags
abbrev pub default_mode : ℕ
default_mode = 0

abbrev pub force : ℕ
force = 2

abbrev pub has_force : ℕ → Bool
has_force mode = mode / 2 % 2 == 1

pub data CacheSignal : Type 0 where
  item_changed : DbObject → CacheSignal
  item_deleted : DbAddress → CacheSignal

pub record Cache : Type 0 where
  -- _cache, by dbKey
  pub cache : Dict ℕ DbObject
  -- _changes
  pub changes : Dict CacheAction DbObject
  pub mode : ℕ
  pub last_update_time : ℕ
  pub update_interval : ℕ
  -- `_writer && _writer->isValid()`
  pub writer_ready : Bool
  -- the calls of the writer so far
  pub calls : List Call
  pub signals : List CacheSignal

-- SqlDBCache::deleteFromCache
unfoldable pub delete_from_cache : DbObject → Cache → Cache
delete_from_cache obj c = record c { cache = remove obj.db_key c.cache }

-- SqlDBCache::insertToCache
unfoldable pub insert_to_cache : DbObject → Cache → Cache × Bool
insert_to_cache obj c =
    if not obj.is_cached
    then (c, false)
    else if obj.address.id == 0
    then (c, false)
    else if contains obj.db_key c.cache
    then (c, false)
    else (record c { cache = insert obj.db_key obj c.cache }, true)

-- copyFrom of an object's class: every member is copied, if the other has the class.
unfoldable pub copy_from : DbObject → DbObject → Option DbObject
copy_from obj other = if obj.cmd == other.cmd then some other else none

-- SqlDBCache::updateCache
unfoldable pub update_cache : DbObject → Cache → Cache × Bool
update_cache obj c = if not obj.is_cached then (c, false) else elim (lookup obj.db_key c.cache) [
  | none ↦ (c, false)
  | some exists_object ↦
      if not (exists_object.cmd == obj.cmd)
      then (record c { cache = insert obj.db_key obj c.cache }, true)
      else elim (copy_from exists_object obj) [
        | none ↦ (c, false)
        | some copy ↦ (record c { cache = insert obj.db_key copy c.cache }, true)
      ]
]

-- SqlDBCache::getFromCache, with getFromCacheById
unfoldable pub get_from_cache : DbObject → Cache → List DbObject
get_from_cache obj c =
    if not (obj.address.id == 0)
    then elim (lookup obj.db_key c.cache) [ none ↦ [] | some found ↦ found ∷ [] ]
    else []

-- ISqlDBCache::pushToQueue
unfoldable pub push_to_queue : DbObject → CacheAction → Cache → Cache
push_to_queue obj type c = record c { changes = insert type obj c.changes }

-- emit
unfoldable pub emit : CacheSignal → Cache → Cache
emit s c = record c { signals = c.signals ++ (s ∷ []) }

module _ (sql : Sql) where
  -- A call of the writer.
  unfoldable pub write : Call → Cache → Cache × Bool
  write call c = (record c { calls = c.calls ++ (call ∷ []) }, sql.accepts c.calls call)

  -- `_writer && _writer->isValid() && _writer->...`
  unfoldable pub try_write : Call → Cache → Cache × Bool
  try_write call c = if c.writer_ready then write call c else (c, false)

  -- The body of the loop of globalUpdateDataBasePrivate, with a writer.
  unfoldable pub save_change : CacheAction → DbObject → Cache → Cache
  save_change action obj c = if not obj.is_valid then delete_from_cache obj c else elim action [
    | insert_action ↦ (write (insert_call obj true) c).0
    | update_action ↦ (write (update_call obj true) c).0
    | delete_action ↦ (write (delete_call obj true) c).0
    | no_action ↦ c
  ]

  unfoldable pub save_changes : Dict CacheAction DbObject → Cache → Cache
  save_changes [] c = c
  save_changes ((action, obj) ∷ rest) c = save_changes rest (save_change action obj c)

  -- ISqlDBCache::globalUpdateDataBasePrivate: without a writer it returns at the first change.
  unfoldable pub global_update_data_base_private : ℕ → Cache → Cache
  global_update_data_base_private current_time c = elim c.changes [
    | [] ↦ record c { last_update_time = current_time }
    | _ ∷ _ ↦
        if not c.writer_ready
        then c
        else record (save_changes c.changes c) { changes = []; last_update_time = current_time }
  ]

  -- ISqlDBCache::globalUpdateDataBase; the work is done here whatever the thread.
  unfoldable pub global_update_data_base : ℕ → ℕ → Cache → Cache
  global_update_data_base current_time mode c =
      if ltb (c.update_interval + c.last_update_time) current_time || has_force mode
      then global_update_data_base_private current_time c
      else c

  -- ISqlDBCache::updateObjectP
  unfoldable pub update_object_p : ℕ → DbObject → Bool → Cache → Cache × Bool
  update_object_p now obj wait c =
      let (cached, done) = update_cache obj c in
      if done
      then (if cached.mode == force then try_write (update_call obj wait) cached else (
        global_update_data_base now cached.mode (push_to_queue obj update_action cached),
        true,
      ))
      else try_write (update_call obj wait) cached

  -- ISqlDBCache::deleteObjectP
  unfoldable pub delete_object_p : DbObject → Bool → Cache → Cache × Bool
  delete_object_p obj wait c =
      try_write (delete_call obj wait) (push_to_queue obj delete_action (delete_from_cache obj c))

  -- ISqlDBCache::insertObjectP
  unfoldable pub insert_object_p : ℕ → DbObject → Bool → Cache → Cache × Bool
  insert_object_p now obj wait c =
      let (cached, done) = insert_to_cache obj c in
      if done
      then (if cached.mode == force then try_write (insert_call obj wait) cached else (
        global_update_data_base now cached.mode (push_to_queue obj update_action cached),
        true,
      ))
      else try_write (insert_call obj wait) cached

  -- The loop of getAllObjects over what the database gave.
  unfoldable pub insert_selected : List DbObject → Cache → Cache
  insert_selected [] c = c
  insert_selected (obj ∷ rest) c =
      insert_selected rest (if obj.is_cached then (insert_to_cache obj c).0 else c)

  -- ISqlDBCache::getAllObjects: the result list, where it returns true.
  unfoldable pub get_all_objects : DbObject → Cache → Cache × Option (List DbObject)
  get_all_objects template c = elim (get_from_cache template c) [
    | obj ∷ objs ↦ (c, some (obj ∷ objs))
    | [] ↦
        if c.writer_ready
        then elim (sql.selects c.calls template) [
          | none ↦ (c, none)
          | some objs ↦ (insert_selected objs c, some objs)
        ]
        else (c, none)
  ]

  -- ISqlDBCache::deleteObject
  unfoldable pub delete_object : DbObject → Bool → Cache → Cache × Bool
  delete_object obj wait c =
      let (c', done) = delete_object_p obj wait c in
      if not done then (c', false) else (
        (if db_address_is_valid obj.address then emit (item_deleted obj.address) c' else c'),
        true,
      )

  -- ISqlDBCache::updateObject
  unfoldable pub update_object : ℕ → DbObject → Bool → Cache → Cache × Bool
  update_object now obj wait c =
      if not obj.is_valid
      then (c, false)
      else (let (c', done) = update_object_p now obj wait c in
          if not done then (c', false) else (emit (item_changed obj) c', true))

  -- ISqlDBCache::insertObject
  unfoldable pub insert_object : ℕ → DbObject → Bool → Cache → Cache × Bool
  insert_object now obj wait c =
      if not obj.is_valid
      then (c, false)
      else (let (c', done) = insert_object_p now obj wait c in
          if not done then (c', false) else (emit (item_changed obj) c', true))

  -- ISqlDBCache::prepareForDelete
  unfoldable pub prepare_for_delete : ℕ → Cache → Cache
  prepare_for_delete now c = global_update_data_base now force c
