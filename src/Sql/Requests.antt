-- ===== src/Sql/Requests.antt =====
-- The request objects of Heart/DataBaseSpace/packages: GetSingleValue, SetSingleValue,
-- GetMaxIntegerId, DBObjectSet with DBObjectsRequest, CustomDBRequest and CachedDbObjectsRequest, and
-- the queries that they prepare.
--
-- QString::arg with several arguments is a parameter. `Row` holds what a request has of DBObject, or
-- of the class BASE of a template.
pub mod Insert
use qt_network_protocol.Prelude.{
  ℕ, List, [], ◌∷◌, ◌++◌, Bool, true, false, not, Option, none, some, length, ◌==◌, if◌then◌else◌,
}
use qt_network_protocol.Qt.{Text}
use qt_network_protocol.Sql.{
  Variant, invalid, Row, PrepareResult, success, disabled, fail, Query, QtSql, prepare, place, join,
  keys, select_word, from_format, remove_format, where_word, prepare_select_query,
  prepare_insert_query, prepare_update_query, prepare_remove_query,
}

-- "SELECT %0 FROM %1 WHERE id='%2'"
abbrev pub single_format : Text
single_format =
    83 ∷ 69 ∷ 76 ∷ 69 ∷ 67 ∷ 84 ∷ 32 ∷ 37 ∷ 48 ∷ 32 ∷ 70 ∷ 82 ∷ 79 ∷ 77 ∷ 32 ∷ 37 ∷ 49 ∷ 32 ∷ 87
    ∷ 72 ∷ 69 ∷ 82 ∷ 69 ∷ 32 ∷ 105 ∷ 100 ∷ 61 ∷ 39 ∷ 37 ∷ 50 ∷ 39 ∷ []

-- "UPDATE %0 SET %1=:%1 WHERE id='%2'"
abbrev pub set_format : Text
set_format =
    85 ∷ 80 ∷ 68 ∷ 65 ∷ 84 ∷ 69 ∷ 32 ∷ 37 ∷ 48 ∷ 32 ∷ 83 ∷ 69 ∷ 84 ∷ 32 ∷ 37 ∷ 49 ∷ 61 ∷ 58 ∷ 37
    ∷ 49 ∷ 32 ∷ 87 ∷ 72 ∷ 69 ∷ 82 ∷ 69 ∷ 32 ∷ 105 ∷ 100 ∷ 61 ∷ 39 ∷ 37 ∷ 50 ∷ 39 ∷ []

-- "SELECT max(%0) FROM %1"
abbrev pub max_format : Text
max_format =
    83 ∷ 69 ∷ 76 ∷ 69 ∷ 67 ∷ 84 ∷ 32 ∷ 109 ∷ 97 ∷ 120 ∷ 40 ∷ 37 ∷ 48 ∷ 41 ∷ 32 ∷ 70 ∷ 82 ∷ 79 ∷ 77
    ∷ 32 ∷ 37 ∷ 49 ∷ []

-- A DBObject whose primaryKey is empty, and that has no members of its own.
abbrev pub bare_row : Text → Variant → Row
bare_row table id = record {
  table_name = table;
  primary_key = [];
  primary_value = id;
  variant_map = [];
}

pub data RequestObject : Type 0 where
  -- table, id and its text, and field
  get_single_value : Text → Variant → Text → Text → RequestObject
  -- table, id and its text, field and value
  set_single_value : Text → Variant → Text → Text → Variant → RequestObject
  -- table and field
  get_max_integer_id : Text → Text → RequestObject
  -- DBObjectsRequest, a DBObjectSet: table, conditions and the variant map of its objects' class
  objects_request : Text → Text → Row → RequestObject
  -- the object of the class BASE, and the text of the query
  custom_db_request : Row → Text → RequestObject
  -- the object of the class BASE, and the condition
  cached_db_objects_request : Row → Text → RequestObject

-- The DBObject part of a request
unfoldable pub request_row : RequestObject → Row
request_row (get_single_value table id shown field) = bare_row table id
request_row (set_single_value table id shown field value) = bare_row table id
request_row (get_max_integer_id table field) = bare_row table invalid
request_row (objects_request table conditions item) = record (bare_row table invalid) {
  variant_map = item.variant_map;
}
request_row (custom_db_request row request) = row
request_row (cached_db_objects_request row condition) = row

-- isBundle
unfoldable pub is_bundle_request : RequestObject → Bool
is_bundle_request (objects_request table conditions item) = true
is_bundle_request _ = false

-- getWhereBlock, for a condition that the class overrides
abbrev pub where_of : Text → Text
where_of con = if length con == 0 then [] else where_word ++ con

module _ (qt : QtSql) (args : Text → List Text → Text) where
  abbrev select_where : Row → Text → PrepareResult × Query
  select_where row con =
      prepare qt
        (qt.arg
          (select_word ++ (join (44 ∷ []) (keys row.variant_map) ++ (from_format ++ where_of con)))
          row.table_name)
        []

  -- prepareSelectQuery of the classes
  unfoldable pub prepare_select_request : RequestObject → PrepareResult × Query
  prepare_select_request (get_single_value table id shown field) =
      prepare qt (args single_format (field ∷ table ∷ shown ∷ [])) []
  prepare_select_request (get_max_integer_id table field) =
      prepare qt (args max_format (field ∷ table ∷ [])) []
  prepare_select_request (objects_request table conditions item) =
      select_where (request_row (objects_request table conditions item)) conditions
  prepare_select_request (custom_db_request row request) = prepare qt request []
  prepare_select_request (cached_db_objects_request row condition) = select_where row condition
  prepare_select_request r = prepare_select_query qt (request_row r)

  -- prepareInsertQuery: DBObjectSet disables it, the others have that of DBObject.
  unfoldable pub prepare_insert_request : RequestObject → PrepareResult × Query
  prepare_insert_request (objects_request table conditions item) =
      (disabled, record { text = []; bound = [] })
  prepare_insert_request r = prepare_insert_query qt (request_row r)

  -- prepareUpdateQuery
  unfoldable pub prepare_update_request : RequestObject → PrepareResult × Query
  prepare_update_request (set_single_value table id shown field value) =
      prepare qt (args set_format (table ∷ field ∷ shown ∷ [])) ((place field, value) ∷ [])
  prepare_update_request (objects_request table conditions item) =
      (disabled, record { text = []; bound = [] })
  prepare_update_request r = prepare_update_query qt (request_row r)

  -- prepareRemoveQuery, with the conditions that the classes override
  unfoldable pub prepare_remove_request : RequestObject → PrepareResult × Query
  prepare_remove_request (objects_request table conditions item) =
      prepare qt (qt.arg (remove_format ++ where_of conditions) table) []
  prepare_remove_request (cached_db_objects_request row condition) =
      prepare qt (qt.arg (remove_format ++ where_of condition) row.table_name) []
  prepare_remove_request r = prepare_remove_query qt (request_row r)
