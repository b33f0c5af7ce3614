-- ===== src/Sql.antt =====
-- Heart/DataBaseSpace/packages/dbobject.cpp and sqldbwriter.cpp: the text of the queries, and how the
-- writer runs them.
--
-- A QString is a list of character codes. QString::arg, QVariant::toString and the database are
-- parameters. A variant map is the list of its entries in the order of the keys.
pub mod Columns
pub mod Open
pub mod Requests
pub mod Injected
pub mod Script
pub mod Writer
use qt_network_protocol.Prelude.{
  ℕ, ◌/◌, ◌%◌, List, [], ◌∷◌, ◌++◌, Bool, true, false, ◌&&◌, ◌||◌, not, Option, none, some, length,
  if◌then◌else◌, ◌==◌,
}
use qt_network_protocol.Qt.{Text}

-- What condition asks of a QVariant.
pub data Variant : Type 0 where
  invalid : Variant
  string byte_array other_variant : Text → Variant

-- MemberType: the bits Insert, Update and Unique
pub record MemberType : Type 0 where
  pub inserts : Bool
  pub updates : Bool
  pub unique : Bool

-- An entry of DBVariantMap
pub record Entry : Type 0 where
  pub key : Text
  pub value : Variant
  pub type : MemberType

-- A DBObject, with what its virtual functions return.
pub record Row : Type 0 where
  pub table_name : Text
  pub primary_key : Text
  pub primary_value : Variant
  pub variant_map : List Entry

-- PrepareResult
pub data PrepareResult : Type 0 where
  success disabled fail : PrepareResult

-- QSqlQuery: the text that was prepared, and the bound values.
pub record Query : Type 0 where
  pub text : Text
  pub bound : List (Text × Variant)

pub record QtSql : Type 0 where
  -- QString::arg
  pub arg : Text → Text → Text
  -- QSqlQuery::prepare
  pub prepares : Text → Bool

-- "INSERT INTO %0(%1) VALUES (%2) "
abbrev pub insert_format : Text
insert_format =
    73 ∷ 78 ∷ 83 ∷ 69 ∷ 82 ∷ 84 ∷ 32 ∷ 73 ∷ 78 ∷ 84 ∷ 79 ∷ 32 ∷ 37 ∷ 48 ∷ 40 ∷ 37 ∷ 49 ∷ 41 ∷ 32
    ∷ 86 ∷ 65 ∷ 76 ∷ 85 ∷ 69 ∷ 83 ∷ 32 ∷ 40 ∷ 37 ∷ 50 ∷ 41 ∷ 32 ∷ []

-- "UPDATE %0 SET %1 WHERE "
abbrev pub update_format : Text
update_format =
    85 ∷ 80 ∷ 68 ∷ 65 ∷ 84 ∷ 69 ∷ 32 ∷ 37 ∷ 48 ∷ 32 ∷ 83 ∷ 69 ∷ 84 ∷ 32 ∷ 37 ∷ 49 ∷ 32 ∷ 87 ∷ 72
    ∷ 69 ∷ 82 ∷ 69 ∷ 32 ∷ []

-- "DELETE FROM %0 "
abbrev pub remove_format : Text
remove_format = 68 ∷ 69 ∷ 76 ∷ 69 ∷ 84 ∷ 69 ∷ 32 ∷ 70 ∷ 82 ∷ 79 ∷ 77 ∷ 32 ∷ 37 ∷ 48 ∷ 32 ∷ []

-- "SELECT "
abbrev pub select_word : Text
select_word = 83 ∷ 69 ∷ 76 ∷ 69 ∷ 67 ∷ 84 ∷ 32 ∷ []

-- " FROM %0 "
abbrev pub from_format : Text
from_format = 32 ∷ 70 ∷ 82 ∷ 79 ∷ 77 ∷ 32 ∷ 37 ∷ 48 ∷ 32 ∷ []

-- "WHERE "
abbrev pub where_word : Text
where_word = 87 ∷ 72 ∷ 69 ∷ 82 ∷ 69 ∷ 32 ∷ []

-- "WRONG OBJECT"
abbrev pub error_string : Text
error_string = 87 ∷ 82 ∷ 79 ∷ 78 ∷ 71 ∷ 32 ∷ 79 ∷ 66 ∷ 74 ∷ 69 ∷ 67 ∷ 84 ∷ []

-- ", "
abbrev pub comma : Text
comma = 44 ∷ 32 ∷ []

-- ":" before a key
abbrev pub place : Text → Text
place key = 58 ∷ key

-- "= :" between a key and itself
abbrev pub assigned : Text → Text
assigned key = key ++ (61 ∷ 32 ∷ 58 ∷ key)

-- "= '"
abbrev pub equals_quote : Text
equals_quote = 61 ∷ 32 ∷ 39 ∷ []

-- QStringList::join
unfoldable pub join : Text → List Text → Text
join separator [] = []
join separator (x ∷ []) = x
join separator (x ∷ y ∷ rest) = x ++ (separator ++ join separator (y ∷ rest))

-- The loop of prepareInsertQuery, for the entries' texts.
unfoldable pub insert_list : (Text → Text) → Text → List Entry → Text
insert_list shown text [] = text
insert_list shown text (e ∷ []) = if e.type.inserts then text ++ shown e.key else text
insert_list shown text (e ∷ next ∷ rest) =
    let text' = if e.type.inserts then text ++ (shown e.key ++ comma) else text in
    insert_list shown text' (next ∷ rest)

-- The loop of prepareUpdateQuery
unfoldable pub update_list : Text → List Entry → Text
update_list text [] = text
update_list text (e ∷ rest) =
    let separated = if not (length text == 0) then text ++ comma else text in
    let text' = if e.type.updates then separated ++ assigned e.key else text in
    update_list text' rest

-- The loops that bind the values.
unfoldable pub bind_values : (MemberType → Bool) → List Entry → List (Text × Variant)
bind_values selects [] = []
bind_values selects (e ∷ rest) =
    let others = bind_values selects rest in
    if selects e.type then (place e.key, e.value) ∷ others else others

-- The lambda prepareCondition
unfoldable pub prepare_condition : Text → Text → Text
prepare_condition key val = key ++ (equals_quote ++ (val ++ (39 ∷ [])))

-- The loop of condition over the unique members.
unfoldable pub unique_condition : List Entry → Text
unique_condition [] = error_string
unique_condition (e ∷ rest) =
    let later = unique_condition rest in
    if e.type.unique
    then elim e.value [
      | string val ↦ if not (length val == 0) then prepare_condition e.key val else later
      | byte_array _ ↦ later
      | other_variant val ↦ prepare_condition e.key val
      | invalid ↦ later
    ]
    else later

-- DBObject::condition
unfoldable pub condition : Row → Text
condition row = elim row.primary_value [
  | invalid ↦ unique_condition row.variant_map
  | byte_array _ ↦ error_string
  | string val ↦ prepare_condition row.primary_key val
  | other_variant val ↦ prepare_condition row.primary_key val
]

-- DBObject::getWhereBlock
unfoldable pub get_where_block : Row → Text
get_where_block row = if length (condition row) == 0 then [] else where_word ++ condition row

abbrev pub keys : List Entry → List Text
keys [] = []
keys (e ∷ rest) = e.key ∷ keys rest

module _ (qt : QtSql) where
  -- QSqlQuery::prepare, and the values bound if it succeeds
  unfoldable pub prepare : Text → List (Text × Variant) → PrepareResult × Query
  prepare text bound =
      if qt.prepares text
      then (success, record { text = text; bound = bound })
      else (fail, record { text = text; bound = [] })

  -- DBObject::prepareSelectQuery
  unfoldable pub prepare_select_query : Row → PrepareResult × Query
  prepare_select_query row =
      prepare
        (qt.arg
          (select_word
            ++ (join (44 ∷ []) (keys row.variant_map) ++ (from_format ++ get_where_block row)))
          row.table_name)
        []

  -- DBObject::prepareInsertQuery
  unfoldable pub prepare_insert_query : Row → PrepareResult × Query
  prepare_insert_query row =
      if length row.variant_map == 0
      then (fail, record { text = []; bound = [] })
      else prepare
          (qt.arg
            (qt.arg (qt.arg insert_format row.table_name)
              (insert_list (λ key. key) [] row.variant_map))
            (insert_list place [] row.variant_map))
          (bind_values (λ type. type.inserts) row.variant_map)

  -- DBObject::prepareUpdateQuery; isHaveAPrimaryKey asks for the name of the key.
  unfoldable pub prepare_update_query : Row → PrepareResult × Query
  prepare_update_query row =
      if length row.primary_key == 0 || length row.variant_map == 0
      then (fail, record { text = []; bound = [] })
      else prepare
          (qt.arg (qt.arg (update_format ++ condition row) row.table_name)
            (update_list [] row.variant_map))
          (bind_values (λ type. type.updates) row.variant_map)

  -- DBObject::prepareRemoveQuery
  unfoldable pub prepare_remove_query : Row → PrepareResult × Query
  prepare_remove_query row =
      prepare (qt.arg (remove_format ++ get_where_block row) row.table_name) []
