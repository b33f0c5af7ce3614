-- ===== src/Tests/SqlTests.antt =====
-- The queries and the SQL writer at concrete inputs.
use qt_network_protocol.Prelude.{◌≡◌, refl, [], ◌∷◌, ◌++◌, List, true, false, some, none, map}
use qt_network_protocol.Qt.{Text}
use qt_network_protocol.Sql.{
  MemberType, Entry, Row, invalid, other_variant, Variant, success, QtSql, insert_format, comma,
  place, join, prepare_insert_query,
}
use qt_network_protocol.Sql.Columns.{prepare_insert_query-columns}
use qt_network_protocol.Sql.Script.{exec, exec_lines, exec-kept, closed, last_index_of, has_comment}

-- A stand-in for QString::arg that puts the argument behind the text.
abbrev qt : QtSql
qt = record { arg = λ format argument. format ++ argument; prepares = λ text. true }

abbrev plain_type : MemberType
plain_type = record { inserts = true; updates = true; unique = false }

abbrev key_type : MemberType
key_type = record { inserts = false; updates = false; unique = true }

-- The entries "a", "id" and "n"; "id" is made by the database.
abbrev column : Text → Entry
column key = record { key = key; value = other_variant (49 ∷ []); type = plain_type }

abbrev id_column : Entry
id_column = record { key = 105 ∷ 100 ∷ []; value = invalid; type = key_type }

abbrev row : Row
row = record {
  table_name = 84 ∷ [];
  primary_key = 105 ∷ 100 ∷ [];
  primary_value = other_variant (55 ∷ []);
  variant_map = column (97 ∷ []) ∷ id_column ∷ column (110 ∷ []) ∷ [];
}

prepare_insert_query-columns_example :
    let query = prepare_insert_query qt row in
    let columns : List Text = (97 ∷ []) ∷ (110 ∷ []) ∷ [] in
    (query.0 ≡ success)
    × (query.1.text
        ≡ ((insert_format ++ (84 ∷ [])) ++ join comma columns) ++ join comma (map place columns))
    × (map (λ (b : Text × Variant). b.0) query.1.bound ≡ map place columns)
prepare_insert_query-columns_example =
    prepare_insert_query-columns qt row (column (97 ∷ []) ∷ id_column ∷ []) (column (110 ∷ [])) refl
      refl (λ text. refl)

-- The lines "a;b", "x--y" and "c;d" of a script.
abbrev lines : List Text
lines = (97 ∷ 59 ∷ 98 ∷ []) ∷ (120 ∷ 45 ∷ 45 ∷ 121 ∷ []) ∷ (99 ∷ 59 ∷ 100 ∷ []) ∷ []

exec-kept_example :
    (rest : Text) × (closed (exec (λ log statement. true) (some lines)).0 ++ rest
      ≡ 97 ∷ 59 ∷ 98 ∷ 99 ∷ 59 ∷ 100 ∷ [])
    × (last_index_of rest ≡ none)
unfolding exec exec_lines last_index_of has_comment
exec-kept_example = exec-kept (λ log statement. true) lines refl
