-- ===== src/Sql/Injected.antt =====
-- dbobject.cpp: a value that is put between the quotes of a condition.
use qt_network_protocol.Prelude.{
  ◌≡◌, [], ◌∷◌, ◌++◌, length, ◌==◌, arith, append_assoc, length-append, false,
}
use qt_network_protocol.Qt.{Text}
use qt_network_protocol.Sql.{
  Row, string, QtSql, remove_format, where_word, equals_quote, prepare_condition, condition,
  get_where_block, prepare, prepare_remove_query,
}

-- " OR "
abbrev or_word : Text
or_word = 32 ∷ 79 ∷ 82 ∷ 32 ∷ []

-- The value that closes the quote and opens it again behind an OR.
abbrev pub spliced : Text → Text → Text → Text
spliced key v w = v ++ (39 ∷ (or_word ++ (key ++ (equals_quote ++ w))))

prepare_condition-spliced :
    (key v w : Text)
    → prepare_condition key (spliced key v w)
      ≡ prepare_condition key v ++ (or_word ++ prepare_condition key w)
unfolding prepare_condition
prepare_condition-spliced key v w = simp append_assoc

length-prepare_condition : (key value : Text) → (length (prepare_condition key value) == 0) ≡ false
unfolding prepare_condition
length-prepare_condition key value =
    ground (arith, length-append key (equals_quote ++ (value ++ (39 ∷ []))))

-- The condition of the remove query of a row with a spliced value is
-- that of the first value, the word OR, and that of the second.
pub prepare_remove_query-spliced :
    (qt : QtSql) (row : Row) (v w : Text)
    → row.primary_value ≡ string (spliced row.primary_key v w)
    → (prepare_remove_query qt row).1.text
      ≡ qt.arg
          (remove_format
            ++ (where_word
                ++ (condition (record row { primary_value = string v })
                    ++ (or_word ++ condition (record row { primary_value = string w })))))
          row.table_name
unfolding prepare_remove_query get_where_block condition prepare
prepare_remove_query-spliced qt row v w value =
    let key = row.primary_key in
    let same = prepare_condition-spliced key v w in
    let filled : (length (prepare_condition key (spliced key v w)) == 0) ≡ false =
      length-prepare_condition key (spliced key v w) in
    ground (arith, value, same, filled)
