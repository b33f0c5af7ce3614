-- ===== src/Sql/Columns.antt =====
-- dbobject.cpp: the columns that the insert and update queries name.
use qt_network_protocol.Prelude.{
  ◌≡◌, refl, sym, ap, ◌∙◌, List, [], ◌∷◌, ◌++◌, Bool, true, false, length, map, if◌then◌else◌, ◌==◌,
  arith, append_assoc, append-nil, length-append, Bool-cases, inl, inr,
}
use qt_network_protocol.Qt.{Text}
use qt_network_protocol.Sql.{
  Variant, MemberType, Entry, Row, success, QtSql, insert_format, update_format, comma, place,
  assigned, join, insert_list, update_list, bind_values, condition, prepare, prepare_insert_query,
  prepare_update_query,
}

-- The names of the entries that a query takes.
abbrev pub names : (MemberType → Bool) → List Entry → List Text
names selects [] = []
names selects (e ∷ rest) = if selects e.type then e.key ∷ names selects rest else names selects rest

abbrev pub inserted : List Entry → List Text
inserted es = names (λ (type : MemberType). type.inserts) es

abbrev pub updated : List Entry → List Text
updated es = names (λ (type : MemberType). type.updates) es

-- Each text with a comma behind it, or before it.
abbrev ahead : List Text → Text
ahead [] = []
ahead (x ∷ xs) = x ++ (comma ++ ahead xs)

abbrev behind : List Text → Text
behind [] = []
behind (x ∷ xs) = comma ++ (x ++ behind xs)

join-cons : (x : Text) (xs : List Text) → join comma (x ∷ xs) ≡ x ++ behind xs
unfolding join
join-cons x [] = sym (append-nil x)
join-cons x (y ∷ rest) = ap (λ t. x ++ (comma ++ t)) (join-cons y rest)

join-append : (xs : List Text) (x : Text) → join comma (xs ++ (x ∷ [])) ≡ ahead xs ++ x
unfolding join
join-append [] x = refl
join-append (y ∷ []) x = sym (append_assoc y comma x)
join-append (y ∷ z ∷ rest) x =
    ap (λ t. y ++ (comma ++ t)) (join-append (z ∷ rest) x) ∙ simp (append_assoc)

ahead-join : (x : Text) (xs : List Text) → ahead (x ∷ xs) ≡ join comma (x ∷ xs) ++ comma
unfolding join
ahead-join x [] = simp append-nil
ahead-join x (y ∷ rest) = ap (λ t. x ++ (comma ++ t)) (ahead-join y rest) ∙ simp (append_assoc)

names-append :
    (selects : MemberType → Bool) (es : List Entry) (e : Entry)
    → names selects (es ++ (e ∷ []))
      ≡ names selects es ++ (if selects e.type then e.key ∷ [] else [])
names-append selects [] e = ground arith
names-append selects (d ∷ es) e = ground (arith, names-append selects es e)

-- What the loop has written, with one entry more.
insert_list-cons :
    (shown : Text → Text) (text tail : Text) (d : Entry) (es : List Entry)
    → (if d.type.inserts then text ++ (shown d.key ++ comma) else text)
        ++ (ahead (map shown (inserted es)) ++ tail)
      ≡ text ++ (ahead (map shown (inserted (d ∷ es))) ++ tail)
insert_list-cons shown text tail d es = elim (Bool-cases d.type.inserts) [
  | inl h ↦
      let regroup : (text ++ (shown d.key ++ comma)) ++ (ahead (map shown (inserted es)) ++ tail)
          ≡ text ++ ((shown d.key ++ (comma ++ ahead (map shown (inserted es)))) ++ tail) =
        simp (append_assoc) in
      ground (arith, h, regroup)
  | inr h ↦ ground (arith, h)
]

insert_list-last :
    (shown : Text → Text) (text : Text) (es : List Entry) (e : Entry)
    → insert_list shown text (es ++ (e ∷ []))
      ≡ text ++ (ahead (map shown (inserted es)) ++ (if e.type.inserts then shown e.key else []))
unfolding insert_list
insert_list-last shown text [] e = elim (Bool-cases e.type.inserts) [
  | inl h ↦ ground (arith, h)
  | inr h ↦ ground (arith, h, append-nil text)
]
insert_list-last shown text (d ∷ []) e =
    let tail = if e.type.inserts then shown e.key else [] in
    insert_list-last shown (if d.type.inserts then text ++ (shown d.key ++ comma) else text) [] e
    ∙ insert_list-cons shown text tail d []
insert_list-last shown text (d ∷ d' ∷ es) e =
    let tail = if e.type.inserts then shown e.key else [] in
    insert_list-last shown (if d.type.inserts then text ++ (shown d.key ++ comma) else text)
      (d' ∷ es) e
    ∙ insert_list-cons shown text tail d (d' ∷ es)

update_list-behind :
    (text : Text) (es : List Entry)
    → (length text == 0) ≡ false
    → update_list text es ≡ text ++ behind (map assigned (updated es))
unfolding update_list join
update_list-behind text [] h = sym (append-nil text)
update_list-behind text (e ∷ es) h = elim (Bool-cases e.type.updates) [
  | inl k ↦
      let grown = (text ++ comma) ++ assigned e.key in
      let more : (length grown == 0) ≡ false =
        ground (arith, length-append (text ++ comma) (assigned e.key), length-append text comma) in
      let regroup : grown ++ behind (map assigned (updated es))
          ≡ text ++ (comma ++ (assigned e.key ++ behind (map assigned (updated es)))) =
        simp (append_assoc) in
      ground (arith, h, k, update_list-behind grown es more, regroup)
  | inr k ↦ ground (arith, h, k, update_list-behind text es h)
]

update_list-join : (es : List Entry) → update_list [] es ≡ join comma (map assigned (updated es))
unfolding update_list join
update_list-join [] = refl
update_list-join (e ∷ es) = elim (Bool-cases e.type.updates) [
  | inl k ↦
      let more : (length (assigned e.key) == 0) ≡ false =
        ground (arith, length-append e.key (61 ∷ 32 ∷ 58 ∷ e.key)) in
      ground (
        arith,
        k,
        update_list-behind (assigned e.key) es more,
        join-cons (assigned e.key) (map assigned (updated es)),
      )
  | inr k ↦ ground (arith, k, update_list-join es)
]

bind_values-names :
    (selects : MemberType → Bool) (es : List Entry)
    → map (λ (b : Text × Variant). b.0) (bind_values selects es) ≡ map place (names selects es)
unfolding bind_values
bind_values-names selects [] = refl
bind_values-names selects (e ∷ es) = ground (arith, bind_values-names selects es)

map-names_last :
    (shown : Text → Text) (es : List Entry) (e : Entry)
    → e.type.inserts ≡ true
    → map shown (inserted (es ++ (e ∷ []))) ≡ map shown (inserted es) ++ (shown e.key ∷ [])
map-names_last shown [] e h = ground (arith, h)
map-names_last shown (d ∷ es) e h = ground (arith, h, map-names_last shown es e h)

insert_list-join :
    (shown : Text → Text) (es : List Entry) (e : Entry)
    → e.type.inserts ≡ true
    → insert_list shown [] (es ++ (e ∷ [])) ≡ join comma (map shown (inserted (es ++ (e ∷ []))))
insert_list-join shown es e h = ground (
  arith,
  h,
  insert_list-last shown [] es e,
  map-names_last shown es e h,
  join-append (map shown (inserted es)) (shown e.key),
)

insert_list-trailing :
    (shown : Text → Text) (es : List Entry) (e : Entry) (x : Text) (xs : List Text)
    → e.type.inserts ≡ false
    → inserted es ≡ x ∷ xs
    → insert_list shown [] (es ++ (e ∷ [])) ≡ join comma (map shown (x ∷ xs)) ++ comma
insert_list-trailing shown es e x xs h some_are = ground (
  arith,
  h,
  insert_list-last shown [] es e,
  ap (λ (ns : List Text). ahead (map shown ns)) some_are,
  ahead-join (shown x) (map shown xs),
  append-nil (ahead (map shown (x ∷ xs))),
)

map_self : (xs : List Text) → map (λ (key : Text). key) xs ≡ xs
map_self [] = refl
map_self (x ∷ xs) = ap (λ r. x ∷ r) (map_self xs)

-- The insert query of a row whose last entry is one to insert, if the database prepares it, names
-- exactly the columns to insert and their place holders, with commas between them, and binds a
-- value to each of the place holders.
pub prepare_insert_query-columns :
    (qt : QtSql) (row : Row) (es : List Entry) (e : Entry)
    → row.variant_map ≡ es ++ (e ∷ [])
    → e.type.inserts ≡ true
    → ((text : Text) → qt.prepares text ≡ true)
    → let query = prepare_insert_query qt row in
      let columns = inserted row.variant_map in
      (query.0 ≡ success)
      × (query.1.text
          ≡ qt.arg
              (qt.arg (qt.arg insert_format row.table_name) (join comma columns))
              (join comma (map place columns)))
      × (map (λ (b : Text × Variant). b.0) query.1.bound ≡ map place columns)
unfolding prepare_insert_query prepare
prepare_insert_query-columns qt row es e entries last accepts =
    let vm = row.variant_map in
    let filled : (length vm == 0) ≡ false = ground (arith, entries, length-append es (e ∷ [])) in
    let header : insert_list (λ key. key) [] vm ≡ join comma (inserted vm) =
      ap (insert_list (λ key. key) []) entries
      ∙ insert_list-join (λ key. key) es e last
      ∙ ap (join comma) (map_self (inserted (es ++ (e ∷ []))))
      ∙ ap (λ (m : List Entry). join comma (inserted m)) (sym entries) in
    let values : insert_list place [] vm ≡ join comma (map place (inserted vm)) =
      ap (insert_list place []) entries
      ∙ insert_list-join place es e last
      ∙ ap (λ (m : List Entry). join comma (map place (inserted m))) (sym entries) in
    let text =
      qt.arg (qt.arg (qt.arg insert_format row.table_name) (insert_list (λ key. key) [] vm))
        (insert_list place [] vm) in
    let names = bind_values-names (λ (type : MemberType). type.inserts) vm in
    (
      ground (arith, filled, accepts text),
      ground (arith, filled, accepts text, header, values),
      ground (arith, filled, accepts text, names),
    )

-- Where the last entry is not one to insert, but another is, both lists of the insert query end with
-- a comma.
pub prepare_insert_query-trailing :
    (qt : QtSql) (row : Row) (es : List Entry) (e : Entry) (x : Text) (xs : List Text)
    → row.variant_map ≡ es ++ (e ∷ [])
    → e.type.inserts ≡ false
    → inserted es ≡ x ∷ xs
    → (prepare_insert_query qt row).1.text
      ≡ qt.arg
          (qt.arg (qt.arg insert_format row.table_name) (join comma (x ∷ xs) ++ comma))
          (join comma (map place (x ∷ xs)) ++ comma)
unfolding prepare_insert_query prepare
prepare_insert_query-trailing qt row es e x xs entries last some_are =
    let vm = row.variant_map in
    let filled : (length vm == 0) ≡ false = ground (arith, entries, length-append es (e ∷ [])) in
    let header : insert_list (λ key. key) [] vm ≡ join comma (x ∷ xs) ++ comma =
      ap (insert_list (λ key. key) []) entries
      ∙ insert_list-trailing (λ key. key) es e x xs last some_are
      ∙ ap (λ (ns : List Text). join comma ns ++ comma) (map_self (x ∷ xs)) in
    let values : insert_list place [] vm ≡ join comma (map place (x ∷ xs)) ++ comma =
      ap (insert_list place []) entries ∙ insert_list-trailing place es e x xs last some_are in
    ground (arith, filled, header, values)

-- The update query of a row with a primary key and entries, if the database prepares it, assigns
-- exactly the columns to update, with commas between them, and binds a value to each of the place
-- holders.
pub prepare_update_query-columns :
    (qt : QtSql) (row : Row)
    → (length row.primary_key == 0) ≡ false
    → (length row.variant_map == 0) ≡ false
    → ((text : Text) → qt.prepares text ≡ true)
    → let query = prepare_update_query qt row in
      let columns = updated row.variant_map in
      (query.0 ≡ success)
      × (query.1.text
          ≡ qt.arg
              (qt.arg (update_format ++ condition row) row.table_name)
              (join comma (map assigned columns)))
      × (map (λ (b : Text × Variant). b.0) query.1.bound ≡ map place columns)
unfolding prepare_update_query prepare
prepare_update_query-columns qt row keyed entries accepts =
    let text =
      qt.arg (qt.arg (update_format ++ condition row) row.table_name)
        (update_list [] row.variant_map) in
    let same = update_list-join row.variant_map in
    let names = bind_values-names (λ (type : MemberType). type.updates) row.variant_map in
    (
      ground (arith, keyed, entries, accepts text),
      ground (arith, keyed, entries, accepts text, same),
      ground (arith, keyed, entries, accepts text, names),
    )
