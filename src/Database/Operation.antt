-- ===== src/Database/Operation.antt =====
-- databasenode.cpp: the operations that a requester may ask for.
use qt_network_protocol.Prelude.{
  ℕ, List, [], ◌∷◌, Bool, true, false, ◌||◌, not, Option, none, some, if◌then◌else◌, ℤ, ◌+ℤ◌,
  bytes_eq,
}
use qt_network_protocol.Qt.{Text}
use qt_network_protocol.Database.Object.{
  DbObject, Hashes, address_equal, network_member, user_member, network_member_object,
}
use qt_network_protocol.Cache.{Cache, Sql}
use qt_network_protocol.Cache
use qt_network_protocol.Cache.Change.{Changed}
use qt_network_protocol.Cache.Change
use qt_network_protocol.Database.Permission.{
  read, update, write, DbOperationResult, unknown, allowed, forbidden, is_allowed, DataBaseNode,
  get_object_raw, check_permission, add_update_permission,
}

-- DataBaseNode::isForbidenTable
unfoldable pub is_forbiden_table : Text → List Text → Bool
is_forbiden_table table [] = false
is_forbiden_table table (t ∷ rest) = bytes_eq t table || is_forbiden_table table rest

module _ (sql : Sql) (hashes : Hashes) where
  -- DataBaseNode::getObject; the object, where the source sets `result`. The source's first test joins
  -- a missing database and an empty result by `&&`, and goes on without a database where the caller's
  -- result is set; the model takes the caller's result to be empty.
  unfoldable pub get_object :
      ℕ → DbObject → DataBaseNode → DataBaseNode × DbOperationResult × Option DbObject
  get_object requester template node =
      if not node.has_db
      then (node, unknown, none)
      else (let (checked, answer) =
            check_permission sql hashes requester template.address read node in
          let (c, found) = get_object_raw sql hashes template checked.db in
          if not (is_allowed answer) then (checked, answer, none) else elim found [
            | none ↦ (record checked { db = c }, unknown, none)
            | some obj ↦
                if not (address_equal obj.address template.address)
                then (record checked { db = c }, unknown, none)
                else (record checked { db = c }, allowed, some obj)
          ])

  -- The loop of getObjects.
  unfoldable pub check_objects : ℕ → List DbObject → DataBaseNode → DataBaseNode × DbOperationResult
  check_objects requester [] node = (node, allowed)
  check_objects requester (obj ∷ rest) node =
      let (checked, answer) = check_permission sql hashes requester obj.address read node in
      let others = check_objects requester rest checked in
      if not (is_allowed answer) then (checked, answer) else others

  -- DataBaseNode::getObjects; the list is set whatever the answer is, as in the source.
  unfoldable pub get_objects :
      ℕ → DbObject → DataBaseNode → DataBaseNode × DbOperationResult × List DbObject
  get_objects requester template node =
      if not node.has_db
      then (node, unknown, [])
      else (let (c, result) = Cache.get_all_objects sql template node.db in
          elim result [
            | none ↦ (record node { db = c }, unknown, [])
            | some objs ↦
                let (checked, answer) = check_objects requester objs (record node { db = c }) in
                (checked, answer, objs)
          ])

  -- DataBaseNode::updateObject
  unfoldable pub update_object : ℕ → ℕ → DbObject → DataBaseNode → DataBaseNode × DbOperationResult
  update_object now requester obj node =
      if not node.has_db
      then (node, unknown)
      else (let (checked, answer) = check_permission sql hashes requester obj.address write node in
          let (c, done) = Cache.update_object sql now obj false checked.db in
          if not (is_allowed answer)
          then (checked, answer)
          else (record checked { db = c }, (if not done then unknown else allowed)))

  -- DataBaseNode::createObject
  unfoldable pub create_object : ℕ → ℕ → DbObject → DataBaseNode → DataBaseNode × DbOperationResult
  create_object now requester obj node =
      if not node.has_db
      then (node, unknown)
      else if is_forbiden_table obj.address.table node.system_tables
      then (node, forbidden)
      else (let (c, inserted) = Cache.insert_object sql now obj false node.db in
          let (granted, done) =
            add_update_permission sql hashes now requester obj.address write read
              (record node { db = c }) in
          if not inserted
          then (record node { db = c }, unknown)
          else if not done
          then (record granted { db = (Cache.delete_object sql obj false granted.db).0 }, forbidden)
          else (granted, allowed))

  -- DataBaseNode::updateIfNotExistsCreateObject
  unfoldable pub update_if_not_exists_create_object :
      ℕ → ℕ → DbObject → DataBaseNode → DataBaseNode × DbOperationResult
  update_if_not_exists_create_object now requester obj node =
      let (updated, answer) = update_object now requester obj node in
      elim answer [
        | unknown ↦ create_object now requester obj updated
        | allowed ↦ (updated, allowed)
        | forbidden ↦ (updated, forbidden)
      ]

  -- The action `execWithCheck` of changeObjects: its state is the variable `result`. The change is a
  -- function on the object that also says whether it went well.
  unfoldable pub exec_with_check :
      ℕ
      → (DbObject → DbObject × Bool)
      → DataBaseNode
      → DbObject
      → DbOperationResult
      → Cache
      → Changed DbOperationResult
  exec_with_check requester change node obj result c =
      let (checked, answer) =
        check_permission sql hashes requester obj.address update (record node { db = c }) in
      let (changed, done) = change obj in
      if not (is_allowed answer)
      then record { object = obj; done = false; state = answer; cache = checked.db }
      else record { object = changed; done = done; state = answer; cache = checked.db }

  -- DataBaseNode::changeObjects
  unfoldable pub change_objects :
      ℕ
      → ℕ
      → DbObject
      → (DbObject → DbObject × Bool)
      → DataBaseNode
      → DataBaseNode × DbOperationResult
  change_objects now requester template change node =
      if not node.has_db
      then (node, unknown)
      else (let (result, c, done) =
            Change.change_objects sql now (exec_with_check requester change node) template unknown
              node.db in
          (record node { db = c }, result))

  -- DataBaseNode::deleteObject
  unfoldable pub delete_object : ℕ → DbObject → DataBaseNode → DataBaseNode × DbOperationResult
  delete_object requester obj node =
      if not node.has_db
      then (node, unknown)
      else (let (checked, answer) = check_permission sql hashes requester obj.address write node in
          let (c, done) = Cache.delete_object sql obj false checked.db in
          if not (is_allowed answer)
          then (checked, answer)
          else (record checked { db = c }, (if not done then unknown else allowed)))

  -- The action of changeTrust, and DataBaseNode::changeTrust of a member.
  unfoldable pub trust_action : ℤ → DbObject → Bool → Cache → Changed Bool
  trust_action diff obj r c = elim obj.content [
    | network_member t ↦ record {
      object = record obj { content = network_member (t +ℤ diff) };
      done = true;
      state = r;
      cache = c;
    }
    | user_member auth t token ↦ record {
      object = record obj { content = user_member auth (t +ℤ diff) token };
      done = true;
      state = r;
      cache = c;
    }
    | _ ↦ record { object = obj; done = false; state = r; cache = c }
  ]

  unfoldable pub change_member_trust : ℕ → ℕ → ℤ → DataBaseNode → DataBaseNode × Bool
  change_member_trust now id diff node =
      if not node.has_db
      then (node, false)
      else (let (r, c, done) =
            Change.change_objects sql now (trust_action diff) (network_member_object hashes id) true
              node.db in
          (record node { db = c }, done))
