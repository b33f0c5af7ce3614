-- ===== src/Packages/Permisions.antt =====
-- variantMap, condition and fromSqlRecord of MemberPermisionObject and DefaultPermision
-- (Heart/DataBaseSpace/packages): the permissions as rows of their tables.
pub mod Removed
use qt_network_protocol.Prelude.{List, [], ◌∷◌, ◌++◌, Bool, not, length, ◌==◌, if◌then◌else◌}
use qt_network_protocol.Qt.{Text}
use qt_network_protocol.Database.Object.{PermisionData, permision_is_valid}
use qt_network_protocol.Packages.Classes.{MemberPermisionObject}
use qt_network_protocol.Packages.Rows.{Variants, insert_update, primary_key_type, Columns, value}
use qt_network_protocol.Sql.{
  string, Entry, Row, PrepareResult, Query, QtSql, prepare, remove_format, where_word, select_word,
  from_format, join, keys,
}

-- "memberId"
abbrev pub member_id_key : Text
member_id_key = 109 ∷ 101 ∷ 109 ∷ 98 ∷ 101 ∷ 114 ∷ 73 ∷ 100 ∷ []

-- "dbAddress"
abbrev pub db_address_key : Text
db_address_key = 100 ∷ 98 ∷ 65 ∷ 100 ∷ 100 ∷ 114 ∷ 101 ∷ 115 ∷ 115 ∷ []

-- "lvl"
abbrev pub level_key : Text
level_key = 108 ∷ 118 ∷ 108 ∷ []

-- "memberId='"
abbrev pub member_is : Text
member_is = 109 ∷ 101 ∷ 109 ∷ 98 ∷ 101 ∷ 114 ∷ 73 ∷ 100 ∷ 61 ∷ 39 ∷ []

-- "dbAddress='"
abbrev pub address_is : Text
address_is = 100 ∷ 98 ∷ 65 ∷ 100 ∷ 100 ∷ 114 ∷ 101 ∷ 115 ∷ 115 ∷ 61 ∷ 39 ∷ []

-- " AND "
abbrev pub and_word : Text
and_word = 32 ∷ 65 ∷ 78 ∷ 68 ∷ 32 ∷ []

module _ (variants : Variants) where
  -- MemberPermisionObject::variantMap
  unfoldable pub permision_variant_map : MemberPermisionObject → List Entry
  permision_variant_map o =
      record { key = db_address_key; value = string o.key.address_hash; type = insert_update }
      ∷ record { key = level_key; value = variants.byte_variant o.permision; type = insert_update }
      ∷ record { key = member_id_key; value = variants.id_variant o.key.id; type = insert_update }
      ∷ []

  -- DefaultPermision::variantMap
  unfoldable pub default_variant_map : MemberPermisionObject → List Entry
  default_variant_map o =
      record { key = db_address_key; value = string o.key.address_hash; type = primary_key_type }
      ∷ record { key = level_key; value = variants.byte_variant o.permision; type = insert_update }
      ∷ []

  -- MemberPermisionObject::condition
  unfoldable pub permision_condition : MemberPermisionObject → Text
  permision_condition o =
      let member =
        if not (o.key.id == 0) then member_is ++ (variants.shown o.key.id ++ (39 ∷ [])) else [] in
      if not (length o.key.address_hash == 0)
      then (if not (length member == 0) then member ++ and_word else member)
        ++ (address_is ++ (o.key.address_hash ++ (39 ∷ [])))
      else member

  -- DefaultPermision::condition
  unfoldable pub default_condition : MemberPermisionObject → Text
  default_condition o = address_is ++ (o.key.address_hash ++ (39 ∷ []))

  -- MemberPermisionObject and DefaultPermision as rows; primaryKey is empty.
  unfoldable pub permision_row : MemberPermisionObject → Row
  permision_row o = record {
    table_name = o.object.address.table;
    primary_key = [];
    primary_value = variants.id_variant o.object.address.id;
    variant_map = permision_variant_map o;
  }

  unfoldable pub default_row : MemberPermisionObject → Row
  default_row o = record (permision_row o) { variant_map = default_variant_map o }

  -- MemberPermisionObject::fromSqlRecord
  unfoldable pub permision_from_sql_record :
      MemberPermisionObject → Columns → MemberPermisionObject × Bool
  permision_from_sql_record o q =
      let key : PermisionData = record {
        id = variants.id_of (value member_id_key q);
        address_hash = variants.to_text (value db_address_key q);
      } in
      (
        record o { key = key; permision = variants.to_uint (value level_key q) },
        permision_is_valid key,
      )

  -- DefaultPermision::fromSqlRecord
  unfoldable pub default_from_sql_record :
      MemberPermisionObject → Columns → MemberPermisionObject × Bool
  default_from_sql_record o q =
      let key : PermisionData = record {
        id = 0;
        address_hash = variants.to_text (value db_address_key q);
      } in
      (
        record o { key = key; permision = variants.to_uint (value level_key q) },
        not (length key.address_hash == 0),
      )

-- DBObject::getWhereBlock of a class that overrides condition
unfoldable pub where_block : Text → Text
where_block con = if length con == 0 then [] else where_word ++ con

module _ (qt : QtSql) (variants : Variants) where
  -- DBObject::prepareRemoveQuery of MemberPermisionObject
  unfoldable pub prepare_remove_permision : MemberPermisionObject → PrepareResult × Query
  prepare_remove_permision o =
      prepare qt
        (qt.arg (remove_format ++ where_block (permision_condition variants o))
          o.object.address.table)
        []

  -- DBObject::prepareSelectQuery of MemberPermisionObject
  unfoldable pub prepare_select_permision : MemberPermisionObject → PrepareResult × Query
  prepare_select_permision o =
      prepare qt
        (qt.arg
          (select_word
            ++ (join (44 ∷ []) (keys (permision_variant_map variants o))
                ++ (from_format ++ where_block (permision_condition variants o))))
          o.object.address.table)
        []
