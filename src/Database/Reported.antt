-- ===== src/Database/Reported.antt =====
-- What changeObjects reports.
use qt_network_protocol.Prelude.{ℕ, ◌≡◌, List, ◌∷◌, Bool, true, false, some, arith}
use qt_network_protocol.Database.Object.{DbObject, Hashes}
use qt_network_protocol.Cache.{Cache, Sql, get_all_objects}
use qt_network_protocol.Cache.Change.{Changed, change_each, share, is_shared}
use qt_network_protocol.Cache.Change
use qt_network_protocol.Database.Permission.{update, allowed, DataBaseNode, check_permission}
use qt_network_protocol.Database.Operation.{exec_with_check, change_objects}

module _ (sql : Sql) (hashes : Hashes) where
  -- changeObjects answers by the permission of the object that it looked at last. Where the first
  -- object that the template selects may be updated, but the change of it fails, it answers
  -- Allowed.
  pub change_objects_failed :
      (now requester : ℕ) (template obj : DbObject) (rest : List DbObject) (c : Cache)
      (change : DbObject → DbObject × Bool) (node : DataBaseNode)
      → node.has_db ≡ true
      → get_all_objects sql template node.db ≡ (c, some (obj ∷ rest))
      → (check_permission sql hashes requester obj.address update (record node { db = c })).1
        ≡ allowed
      → (change obj).1 ≡ false
      → (change_objects sql hashes now requester template change node).1 ≡ allowed
  unfolding change_objects Change.change_objects change_each exec_with_check
  change_objects_failed now requester template obj rest c change node db found checked fails =
      ground (arith, db, found, checked, fails)
