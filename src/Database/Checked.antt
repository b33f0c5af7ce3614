-- ===== src/Database/Checked.antt =====
-- Updates and deletions without the permission to write, and the order of permissions.
use qt_network_protocol.Prelude.{
  ℕ, ◌≤◌, ◌≡◌, refl, ◌∙◌, List, [], ◌∷◌, ◌++◌, Bool, true, false, none, nat_eq, lookup,
  if◌then◌else◌, arith, Option-cases, inl, inr, ==_iff,
}
use qt_network_protocol.Database.Object.{
  DbAddress, DbObject, Hashes, PermisionData, network_member_object, permision_data,
  member_permision_object, default_permision_object,
}
use qt_network_protocol.Cache.{
  Cache, Sql, delete_call, insert_to_cache, insert_selected, get_all_objects, get_from_cache,
  delete_object_p, delete_from_cache, push_to_queue, try_write, emit,
}
use qt_network_protocol.Cache
use qt_network_protocol.Cache.Fresh.{delete_object-cache}
use qt_network_protocol.Database.Permission.{
  Permission, level, write, read, forbidden, allowed, DataBaseNode, get_object_raw,
  get_member_level, get_default_level, find_permision, compare_permision, check_permission,
  add_update_permission,
}
use qt_network_protocol.Database.Operation.{delete_object, create_object, is_forbiden_table}

-- Between the two states the writer was not called, no change was queued, and no signal emitted.
pub record ReadsOnly (c d : Cache) : Type 0 where
  pub calls : d.calls ≡ c.calls
  pub changes : d.changes ≡ c.changes
  pub signals : d.signals ≡ c.signals

pub ReadsOnly-refl : (c : Cache) → ReadsOnly c c
ReadsOnly-refl c = record { calls = refl; changes = refl; signals = refl }

pub ReadsOnly-trans : (c d e : Cache) → ReadsOnly c d → ReadsOnly d e → ReadsOnly c e
ReadsOnly-trans c d e h k = record {
  calls = k.calls ∙ h.calls;
  changes = k.changes ∙ h.changes;
  signals = k.signals ∙ h.signals;
}

insert_to_cache-ReadsOnly : (obj : DbObject) (c : Cache) → ReadsOnly c (insert_to_cache obj c).0
unfolding insert_to_cache
insert_to_cache-ReadsOnly obj c = record {
  calls = ground arith;
  changes = ground arith;
  signals = ground arith;
}

module _ (sql : Sql) (hashes : Hashes) where
  insert_selected-ReadsOnly :
      (objs : List DbObject) (c : Cache) → ReadsOnly c (insert_selected sql objs c)
  unfolding insert_selected
  insert_selected-ReadsOnly [] c = ReadsOnly-refl c
  insert_selected-ReadsOnly (obj ∷ rest) c =
      let next = if obj.is_cached then (insert_to_cache obj c).0 else c in
      let k = insert_to_cache-ReadsOnly obj c in
      let h : ReadsOnly c next = record {
        calls = ground (arith, k.calls);
        changes = ground (arith, k.changes);
        signals = ground (arith, k.signals);
      } in
      ReadsOnly-trans c next (insert_selected sql rest next) h (insert_selected-ReadsOnly rest next)

  pub get_all_objects-ReadsOnly :
      (template : DbObject) (c : Cache) → ReadsOnly c (get_all_objects sql template c).0
  unfolding get_all_objects
  get_all_objects-ReadsOnly template c = elim (Option-cases (sql.selects c.calls template)) [
    | inl e ↦ record {
      calls = ground (arith, e);
      changes = ground (arith, e);
      signals = ground (arith, e);
    }
    | inr (objs, e) ↦
        let k = insert_selected-ReadsOnly objs c in
        record {
          calls = ground (arith, e, k.calls);
          changes = ground (arith, e, k.changes);
          signals = ground (arith, e, k.signals);
        }
  ]

  get_object_raw-ReadsOnly :
      (template : DbObject) (c : Cache) → ReadsOnly c (get_object_raw sql hashes template c).0
  unfolding get_object_raw
  get_object_raw-ReadsOnly template c =
      let k = get_all_objects-ReadsOnly template c in
      record {
        calls = ground (arith, k.calls);
        changes = ground (arith, k.changes);
        signals = ground (arith, k.signals);
      }

  find_permision-ReadsOnly :
      (key : PermisionData) (c : Cache) → ReadsOnly c (find_permision sql hashes key c).0
  unfolding find_permision get_member_level get_default_level
  find_permision-ReadsOnly key c =
      let own = get_object_raw-ReadsOnly (member_permision_object hashes key 0) c in
      let d = (get_object_raw sql hashes (member_permision_object hashes key 0) c).0 in
      let general = get_object_raw-ReadsOnly (default_permision_object hashes key 0) d in
      record {
        calls = ground (arith, own.calls, general.calls);
        changes = ground (arith, own.changes, general.changes);
        signals = ground (arith, own.signals, general.signals);
      }

  -- checkPermission writes nothing.
  pub check_permission-ReadsOnly :
      (requester : ℕ) (address : DbAddress) (required : Permission) (node : DataBaseNode)
      → ReadsOnly node.db (check_permission sql hashes requester address required node).0.db
  unfolding check_permission
  check_permission-ReadsOnly requester address required node =
      let member = get_object_raw-ReadsOnly (network_member_object hashes requester) node.db in
      let d = (get_object_raw sql hashes (network_member_object hashes requester) node.db).0 in
      let found = find_permision-ReadsOnly (permision_data hashes requester address) d in
      record {
        calls = ground (arith, member.calls, found.calls);
        changes = ground (arith, member.changes, found.changes);
        signals = ground (arith, member.signals, found.signals);
      }

  -- A member that may do something to an object may do all that needs less, and what is read to find
  -- that out does not depend on what is asked for.
  pub check_permission_mono :
      (requester : ℕ) (address : DbAddress) (less more : Permission) (node : DataBaseNode)
      → level less ≤ level more
      → (check_permission sql hashes requester address more node).1 ≡ allowed
      → check_permission sql hashes requester address less node
        ≡ check_permission sql hashes requester address more node
  unfolding check_permission compare_permision
  check_permission_mono requester address less more node h k = ground (arith, h, k)

  delete_object-calls :
      (obj : DbObject) (wait : Bool) (c : Cache)
      → c.writer_ready ≡ true
      → (Cache.delete_object sql obj wait c).0.calls ≡ c.calls ++ (delete_call obj wait ∷ [])
  unfolding Cache.delete_object delete_object_p delete_from_cache push_to_queue try_write
      Cache.write emit
  delete_object-calls obj wait c ready = ground (arith, ready)

  -- createObject of an object that was inserted, but for which the permissions could not be stored:
  -- the answer is Forbidden, the object is out of the cache again, and the last thing that the
  -- database hears, where there is a writer, is to delete it.
  pub create_object_rolls_back :
      (now requester : ℕ) (obj : DbObject) (c : Cache) (node granted : DataBaseNode)
      → node.has_db ≡ true
      → is_forbiden_table obj.address.table node.system_tables ≡ false
      → Cache.insert_object sql now obj false node.db ≡ (c, true)
      → add_update_permission sql hashes now requester obj.address write read
          (record node { db = c })
        ≡ (granted, false)
      → granted.db.writer_ready ≡ true
      → let created = create_object sql hashes now requester obj node in
        (created.1 ≡ forbidden)
        × (lookup obj.db_key created.0.db.cache ≡ none)
        × (created.0.db.calls ≡ granted.db.calls ++ (delete_call obj false ∷ []))
  unfolding create_object
  create_object_rolls_back now requester obj c node granted db table inserted refused ready =
      ground (
        arith,
        db,
        table,
        inserted,
        refused,
        delete_object-calls obj false granted.db ready,
        delete_object-cache sql obj false obj.db_key granted.db,
        ==_iff obj.db_key obj.db_key,
      )
