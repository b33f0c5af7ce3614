-- ===== src/Tests/DatabaseTests.antt =====
-- The database node at concrete inputs.
use qt_network_protocol.Prelude.{
  ◌≡◌, refl, [], ◌∷◌, ◌++◌, false, none, lookup, contains, insert, nat_eq,
}
use qt_network_protocol.Database.Object.{permision_data, permision_is_valid}
use qt_network_protocol.Database.Object.{member_permision_object}
use qt_network_protocol.Cache.{
  delete_call, insert_to_cache, insert_object_p, try_write, write, update_cache, update_object_p,
}
use qt_network_protocol.Cache
use qt_network_protocol.Database.Permission.{
  read, write as may_write, forbidden, add_update_permission, insert_or_update, DataBaseNode,
}
use qt_network_protocol.Database.Operation.{update_object, create_object, is_forbiden_table}
use qt_network_protocol.Database.Checked.{create_object_rolls_back}
use qt_network_protocol.Tests.CacheSamples.{hashes, thing, without_permissions, data_base_node}

-- The node after the insertion of thing 7, and after the refused permissions.
abbrev inserted : Cache.Cache
inserted = (Cache.insert_object without_permissions 200 (thing 7) false data_base_node.db).0

abbrev granted : DataBaseNode
granted =
    (add_update_permission without_permissions hashes 200 4 (thing 7).address may_write read
      (record data_base_node { db = inserted })).0

create_object_rolls_back_example :
    let created = create_object without_permissions hashes 200 4 (thing 7) data_base_node in
    (created.1 ≡ forbidden)
    × (lookup 7 created.0.db.cache ≡ none)
    × (created.0.db.calls ≡ granted.db.calls ++ (delete_call (thing 7) false ∷ []))
unfolding Cache.insert_object insert_object_p insert_to_cache lookup contains insert try_write write
    add_update_permission insert_or_update is_forbiden_table Cache.update_object update_object_p
    update_cache permision_is_valid member_permision_object permision_data Cache.emit
create_object_rolls_back_example =
    create_object_rolls_back without_permissions hashes 200 4 (thing 7) inserted data_base_node
      granted refl refl refl refl refl
