-- ===== src/Sql/Requests/Insert.antt =====
-- What the writer does with the request objects.
use qt_network_protocol.Prelude.{◌≡◌, List, [], ◌∷◌, Bool, true, false, ◌&&◌, arith}
use qt_network_protocol.Qt.{Text}
use qt_network_protocol.Sql.{QtSql, prepare, place, prepare_insert_query, prepare_update_query}
use qt_network_protocol.Sql.Writer.{Driver, run_query, work_with_query}
use qt_network_protocol.Sql.Requests.{
  RequestObject, get_single_value, set_single_value, get_max_integer_id, objects_request,
  request_row, is_bundle_request, prepare_insert_request, prepare_update_request, set_format,
}

-- The requests that have no class BASE of their own.
abbrev pub IsPlain : RequestObject → Type 0
IsPlain (get_single_value _ _ _ _) = Unit {0}
IsPlain (set_single_value _ _ _ _ _) = Unit {0}
IsPlain (get_max_integer_id _ _) = Unit {0}
IsPlain (objects_request _ _ _) = Unit {0}
IsPlain _ = ⊥

module _ {Object : Type 0} (qt : QtSql) (args : Text → List Text → Text)
    (driver : Driver Object) where
  -- The writer inserts none of the plain request objects, whatever the database does: it answers true
  -- for a set, whose query is disabled, and false for the others. An update runs a query for
  -- SetSingleValue only: the text has the table, the field and the id, and the value is bound.
  pub run_query-request :
      (r : RequestObject)
      → IsPlain r
      → (run_query qt driver (prepare_insert_request qt args r) ≡ is_bundle_request r)
        × (run_query qt driver (prepare_update_request qt args r) ≡ elim r as (λ _. Bool) [
          | set_single_value table id shown field value ↦
              let text = args set_format (table ∷ field ∷ shown ∷ []) in
              qt.prepares text
              && driver.runs (record { text = text; bound = (place field, value) ∷ [] })
          | objects_request _ _ _ ↦ true
          | _ ↦ false
        ])
  unfolding run_query work_with_query prepare_insert_request prepare_update_request
      prepare_insert_query prepare_update_query request_row prepare is_bundle_request
  run_query-request (get_single_value table id shown field) p = ground arith
  run_query-request (set_single_value table id shown field value) p = ground arith
  run_query-request (get_max_integer_id table field) p = ground arith
  run_query-request (objects_request table conditions item) p = ground arith
  run_query-request _ p = absurd p
