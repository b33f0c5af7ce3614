-- ===== src/Database/Permission.antt =====
-- databasenode.cpp and permission.h: checkPermission, addUpdatePermission and removePermission.
use qt_network_protocol.Prelude.{
  ℕ, List, [], ◌∷◌, Bool, true, false, not, Option, none, some, if◌then◌else◌, ◌==◌, ltb,
}
use qt_network_protocol.Qt.{Text}
use qt_network_protocol.Database.Object.{
  DbAddress, PermisionData, ObjectContent, member_permision, default_permision, DbObject, Hashes,
  permision_data, network_member_object, member_permision_object, default_permision_object,
}
use qt_network_protocol.Cache.{
  Cache, Sql, get_all_objects, insert_object, update_object, delete_object,
}

-- enum class Permission, whose values the code compares by their numbers
pub data Permission : Type 0 where
  no_permission read update write : Permission

abbrev pub level : Permission → ℕ
level no_permission = 0
level read = 1
level update = 2
level write = 3

-- enum class DBOperationResult
pub data DbOperationResult : Type 0 where
  unknown allowed forbidden : DbOperationResult

abbrev pub is_allowed : DbOperationResult → Bool
is_allowed allowed = true
is_allowed _ = false

-- DataBaseNode
pub record DataBaseNode : Type 0 where
  -- `_db` is set
  pub has_db : Bool
  pub db : Cache
  -- systemTables()
  pub system_tables : List Text

module _ (sql : Sql) (hashes : Hashes) where
  -- iObjectProvider::getObjectRaw. Its `list.first()` is taken of a list that is not empty: a query
  -- that selects nothing fails.
  unfoldable pub get_object_raw : DbObject → Cache → Cache × Option DbObject
  get_object_raw template c =
      let (c', result) = get_all_objects sql template c in
      elim result [ none ↦ (c', none) | some [] ↦ (c', none) | some (obj ∷ _) ↦ (c', some obj) ]

  -- The level of an object that can be cast to MemberPermisionObject, from which DefaultPermision
  -- derives, and the level of one that can be cast to DefaultPermision.
  abbrev member_level : ObjectContent → Option ℕ
  member_level (member_permision _ n) = some n
  member_level (default_permision _ n) = some n
  member_level _ = none

  abbrev default_level : ObjectContent → Option ℕ
  default_level (default_permision _ n) = some n
  default_level _ = none

  -- iObjectProvider::getObject for these two classes: the level of what is found.
  unfoldable pub get_member_level : PermisionData → Cache → Cache × Option ℕ
  get_member_level key c =
      let (c', found) = get_object_raw (member_permision_object hashes key 0) c in
      (c', elim found [ none ↦ none | some obj ↦ member_level obj.content ])

  unfoldable pub get_default_level : PermisionData → Cache → Cache × Option ℕ
  get_default_level key c =
      let (c', found) = get_object_raw (default_permision_object hashes key 0) c in
      (c', elim found [ none ↦ none | some obj ↦ default_level obj.content ])

  -- The permission that checkPermission finds: the member's own, or else the object's default.
  unfoldable pub find_permision : PermisionData → Cache → Cache × Option ℕ
  find_permision key c =
      let (c', own) = get_member_level key c in
      elim own [ none ↦ get_default_level key c' | some n ↦ (c', some n) ]

  -- The end of checkPermission.
  unfoldable pub compare_permision : Option ℕ → Permission → DbOperationResult
  compare_permision none required = unknown
  compare_permision (some n) required = if ltb n (level required) then forbidden else allowed

  -- DataBaseNode::checkPermission
  unfoldable pub check_permission :
      ℕ → DbAddress → Permission → DataBaseNode → DataBaseNode × DbOperationResult
  check_permission requester address required node =
      if requester == 0
      then (node, unknown)
      else if not node.has_db
      then (node, unknown)
      else (let (c, member) = get_object_raw (network_member_object hashes requester) node.db in
          let (c', found) = find_permision (permision_data hashes requester address) c in
          elim member [
            | none ↦ (record node { db = c }, unknown)
            | some _ ↦ (record node { db = c' }, compare_permision found required)
          ])

  -- `_db->insertObject(obj) || _db->updateObject(obj)`, as the code writes it with negations.
  unfoldable pub insert_or_update : ℕ → DbObject → Cache → Cache × Bool
  insert_or_update now obj c =
      let (c', inserted) = insert_object sql now obj false c in
      if not inserted then update_object sql now obj false c' else (c', true)

  -- DataBaseNode::addUpdatePermission
  unfoldable pub add_update_permission :
      ℕ → ℕ → DbAddress → Permission → Permission → DataBaseNode → DataBaseNode × Bool
  add_update_permission now member address permision default node =
      if not node.has_db
      then (node, false)
      else (let own =
            member_permision_object hashes (permision_data hashes member address)
              (level permision) in
          let (c, stored) = insert_or_update now own node.db in
          let general =
            default_permision_object hashes (permision_data hashes 0 address) (level default) in
          let (c', done) = insert_or_update now general c in
          if not stored then (record node { db = c }, false) else (record node { db = c' }, done))

  -- DataBaseNode::removePermission
  unfoldable pub remove_permission : ℕ → DbAddress → DataBaseNode → DataBaseNode × Bool
  remove_permission member address node =
      if not node.has_db
      then (node, false)
      else (let own = member_permision_object hashes (permision_data hashes member address) 0 in
          let (c, done) = delete_object sql own false node.db in (record node { db = c }, done))
