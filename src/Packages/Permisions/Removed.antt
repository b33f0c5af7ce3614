-- ===== src/Packages/Permisions/Removed.antt =====
-- Which rows the remove query of a permission takes, and what becomes of its update.
use qt_network_protocol.Prelude.{
  ◌≡◌, List, map, [], ◌∷◌, ◌++◌, append_assoc, true, false, some, arith,
}
use qt_network_protocol.Qt.{Text}
use qt_network_protocol.Sql.{QtSql, join, prepare, remove_format, where_word, prepare_update_query}
use qt_network_protocol.Sql.Writer.{Driver, update_query, run_query, work_with_query}
use qt_network_protocol.Database.Object.{permision_is_valid}
use qt_network_protocol.Packages.Classes.{MemberPermisionObject}
use qt_network_protocol.Packages.Rows.{Variants}
use qt_network_protocol.Packages.Permisions.{
  permision_condition, default_condition, where_block, prepare_remove_permision, permision_row,
  default_row, member_is, and_word,
}

-- column='text'
abbrev pub equation : Text × Text → Text
equation (column, text) = column ++ (61 ∷ 39 ∷ (text ++ (39 ∷ [])))

-- The WHERE block of equations.
abbrev pub rendered : List (Text × Text) → Text
rendered [] = []
rendered (e ∷ es) = where_word ++ join and_word (map equation (e ∷ es))

-- A row gives a text for each column.
abbrev pub Satisfies : (Text → Text) → List (Text × Text) → Type 0
Satisfies row [] = Unit {0}
Satisfies row ((column, text) ∷ es) = (row column ≡ text) × Satisfies row es

module _ (qt : QtSql) (variants : Variants) where
  -- The remove query of a permission with a valid key asks for the member and for the object.
  pub prepare_remove_permision-valid :
      (o : MemberPermisionObject)
      → permision_is_valid o.key ≡ true
      → (prepare_remove_permision qt variants o).1.text
        ≡ qt.arg
            (remove_format
              ++ (where_word
                  ++ ((member_is ++ (variants.shown o.key.id ++ (39 ∷ [])))
                      ++ (and_word ++ default_condition variants o))))
            o.object.address.table
  unfolding prepare_remove_permision permision_is_valid permision_condition default_condition
      where_block prepare
  prepare_remove_permision-valid o v =
      let member : Text = member_is ++ (variants.shown o.key.id ++ (39 ∷ [])) in
      let apart : permision_condition variants o
          ≡ member ++ (and_word ++ default_condition variants o) =
        ground (arith, v, append_assoc member and_word (default_condition variants o)) in
      ground (arith, apart)

  -- The writer cannot update a permission or a default permission, whatever its database does.
  pub update_query-permision :
      {Object : Type 0}
      → (driver : Driver Object) (o : MemberPermisionObject)
      → (update_query qt driver true (some (permision_row variants o)) ≡ some false)
        × (update_query qt driver true (some (default_row variants o)) ≡ some false)
  unfolding update_query run_query work_with_query prepare_update_query permision_row default_row
  update_query-permision driver o = ground arith
