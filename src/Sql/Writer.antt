-- ===== src/Sql/Writer.antt =====
-- sqldbwriter.cpp: workWithQuery and the four kinds of query.
--
-- `Object` is the type of the objects that a select makes; a record is a number.
use qt_network_protocol.Prelude.{
  ℕ, ◌≡◌, ap, List, [], ◌∷◌, ◌++◌, Bool, true, false, not, Option, none, some, length,
  if◌then◌else◌, ◌==◌, arith, append_assoc, append-nil, Option-cases, inl, inr,
}
use qt_network_protocol.Sql.{
  Row, PrepareResult, success, disabled, fail, Query, QtSql, prepare_select_query,
  prepare_insert_query, prepare_update_query, prepare_remove_query,
}

-- The database of the writer, and the class of a template object.
pub record Driver (Object : Type 0) : Type 0 where
  -- QSqlQuery::exec of the prepared query, and the records it gives
  pub runs : Query → Bool
  pub records : Query → List ℕ
  -- createDBObject, isBundle and fromSqlRecord
  pub create_db_object : Option Object
  pub is_bundle : Bool
  pub from_sql_record : Object → ℕ → Option Object

module _ {Object : Type 0} (qt : QtSql) (driver : Driver Object) where
  -- SqlDBWriter::workWithQuery; `x` is what the callback changes.
  unfoldable pub work_with_query :
      {X : Type 0} → PrepareResult × Query → (Query → X → X × Bool) → X → X × Bool
  work_with_query (success, q) cb x = if not (driver.runs q) then (x, false) else cb q x
  work_with_query (disabled, q) cb x = (x, true)
  work_with_query (fail, q) cb x = (x, false)

  -- The callback of the queries without a result.
  unfoldable pub run_query : PrepareResult × Query → Bool
  run_query prepared =
      (work_with_query prepared (λ q (none_changed : List ℕ). (none_changed, true)) []).1

  -- SqlDBWriter::insertQuery
  unfoldable pub insert_query : Bool → Option Row → Bool
  insert_query has_db none = false
  insert_query has_db (some row) =
      if not has_db then false else run_query (prepare_insert_query qt row)

  -- SqlDBWriter::updateQuery and deleteQuery; without a database they use a null pointer.
  unfoldable pub update_query : Bool → Option Row → Option Bool
  update_query has_db none = some false
  update_query has_db (some row) =
      if not has_db then none else some (run_query (prepare_update_query qt row))

  unfoldable pub delete_query : Bool → Option Row → Option Bool
  delete_query has_db none = some false
  delete_query has_db (some row) =
      if not has_db then none else some (run_query (prepare_remove_query qt row))

  -- The loop over the records for a template that is not a bundle.
  unfoldable pub select_each : List ℕ → List Object → List Object × Bool
  select_each [] result = (result, not (length result == 0))
  select_each (record' ∷ records) result = elim driver.create_db_object [
    | none ↦ (result, false)
    | some new ↦ elim (driver.from_sql_record new record') [
      | none ↦ (result, false)
      | some object ↦ select_each records (result ++ (object ∷ []))
    ]
  ]

  -- The loop for a bundle: all records go into one object.
  unfoldable pub fill_bundle : List ℕ → Object → Option Object
  fill_bundle [] object = some object
  fill_bundle (record' ∷ records) object = elim (driver.from_sql_record object record') [
    | none ↦ none
    | some filled ↦ fill_bundle records filled
  ]

  -- The callback of a select
  unfoldable pub select_all : Query → List Object → List Object × Bool
  select_all q result =
      if driver.is_bundle
      then elim driver.create_db_object [
        | none ↦ (result, false)
        | some new ↦ elim (fill_bundle (driver.records q) new) [
          | none ↦ (result, false)
          | some object ↦ (result ++ (object ∷ []), true)
        ]
      ]
      else select_each (driver.records q) result

  -- SqlDBWriter::selectQuery
  unfoldable pub select_query : Bool → Row → List Object → List Object × Bool
  select_query has_db row result =
      if not has_db
      then (result, false)
      else work_with_query (prepare_select_query qt row) select_all result

  -- The objects that records make, if all of them do.
  abbrev pub parsed : List ℕ → Option (List Object)
  parsed [] = some []
  parsed (record' ∷ records) = elim driver.create_db_object [
    | none ↦ none
    | some new ↦ elim (driver.from_sql_record new record') [
      | none ↦ none
      | some object ↦ elim (parsed records) [ none ↦ none | some objects ↦ some (object ∷ objects) ]
    ]
  ]

  select_each-append :
      (front behind : List ℕ) (objects result : List Object)
      → parsed front ≡ some objects
      → select_each (front ++ behind) result ≡ select_each behind (result ++ objects)
  unfolding select_each
  select_each-append [] behind objects result e = ground (arith, e, append-nil result)
  select_each-append (r ∷ front) behind objects result e =
      elim (Option-cases driver.create_db_object) [
        | inl c ↦ absurd (ground (arith, c, e))
        | inr (new, c) ↦ elim (Option-cases (driver.from_sql_record new r)) [
          | inl f ↦ absurd (ground (arith, c, f, e))
          | inr (object, f) ↦ elim (Option-cases (parsed front)) [
            | inl p ↦ absurd (ground (arith, c, f, p, e))
            | inr (others, p) ↦
                let first : objects ≡ object ∷ others = ground (arith, c, f, p, e) in
                let rest = select_each-append front behind others (result ++ (object ∷ [])) p in
                ground (
                  arith,
                  c,
                  f,
                  rest,
                  ap (λ (os : List Object). result ++ os) first,
                  append_assoc result (object ∷ []) others,
                )
          ]
        ]
      ]

  -- A select of a template that is no bundle, whose query runs: when every record makes an object,
  -- they follow what the list had, and the result tells whether the list is not empty.
  pub select_query-parsed :
      (row : Row) (q : Query) (objects result : List Object)
      → prepare_select_query qt row ≡ (success, q)
      → driver.runs q ≡ true
      → driver.is_bundle ≡ false
      → parsed (driver.records q) ≡ some objects
      → select_query true row result ≡ (result ++ objects, not (length (result ++ objects) == 0))
  unfolding select_query work_with_query select_all select_each
  select_query-parsed row q objects result ready runs single e =
      let all = select_each-append (driver.records q) [] objects result e in
      ground (
        arith,
        ready,
        runs,
        single,
        all,
        append-nil (driver.records q),
        ap (λ (rs : List ℕ). select_each rs result) (append-nil (driver.records q)),
      )

  -- Where a record makes no object, the select fails, and the objects of the records before it stay
  -- in the list.
  pub select_query-failed :
      (row : Row) (q : Query) (front behind : List ℕ) (bad : ℕ) (new : Object)
      (objects result : List Object)
      → prepare_select_query qt row ≡ (success, q)
      → driver.runs q ≡ true
      → driver.is_bundle ≡ false
      → driver.records q ≡ front ++ (bad ∷ behind)
      → parsed front ≡ some objects
      → driver.create_db_object ≡ some new
      → driver.from_sql_record new bad ≡ none
      → select_query true row result ≡ (result ++ objects, false)
  unfolding select_query work_with_query select_all select_each
  select_query-failed row q front behind bad new objects result ready runs single rows e c f =
      let all = select_each-append front (bad ∷ behind) objects result e in
      ground
        (arith, ready, runs, single, all, c, f, ap (λ (rs : List ℕ). select_each rs result) rows)
