-- ===== src/Packages/ObjectsRequest.antt =====
-- Heart/DataBaseSpace/packages/dbobjectsrequest.h: a set of objects of one class.
--
-- The class T of the objects is a type with its streams and its fromSqlRecord.
use qt_network_protocol.Prelude.{
  ℕ, zero, suc, ◌<◌, ◌^◌, ◌≡◌, refl, append_assoc, List, [], ◌∷◌, ◌++◌, Bool, true, false, not,
  Option, none, some, length, ◌==◌, pos, pos_part, arith,
}
use qt_network_protocol.Qt.{Text}
use qt_network_protocol.Stream.{Codec, Stream, StreamLaws, Reads, AllOf}
use qt_network_protocol.Packages.Fields.{Nodes}
use qt_network_protocol.Packages.ReadBack.{NodesLaws}
use qt_network_protocol.Packages.Classes.{DbObjectData}
use qt_network_protocol.Packages.Rows.{Columns}
use qt_network_protocol.Packages.Write.{put_db_object}
use qt_network_protocol.Packages.Read.{get_db_object}
use qt_network_protocol.Packages.RoundTrip.Plain.{stored, Fits}
use qt_network_protocol.Packages.RoundTrip.Objects.{get_db_object-put_db_object}

pub record ObjectsRequest (T : Type 0) : Type 0 where
  pub object : DbObjectData
  pub conditions : Text
  pub items : List T

module _ {T : Type 0} where
  -- DBObjectsRequest::isValid
  unfoldable pub objects_request_is_valid : ObjectsRequest T → Bool
  objects_request_is_valid r = not (length r.conditions == 0)

  -- DBObjectsRequest::clear
  unfoldable pub clear_items : ObjectsRequest T → ObjectsRequest T
  clear_items r = record r { items = [] }

  -- DBObjectsRequest::fromSqlRecord, for that of a new T
  unfoldable pub item_from_sql_record :
      (Columns → Option T) → ObjectsRequest T → Columns → ObjectsRequest T × Bool
  item_from_sql_record read r q = elim (read q) [
    | none ↦ (clear_items r, false)
    | some item ↦ (record r { items = r.items ++ (item ∷ []) }, true)
  ]

  module _ (s : Stream) (nodes : Nodes) (item : Codec T) where
    -- The loop of toStream
    unfoldable pub put_items : List T → List ℕ
    put_items [] = []
    put_items (x ∷ items) = item.put x ++ put_items items

    -- The loop of fromStream
    unfoldable pub get_items : ℕ → List ℕ → List T × List ℕ
    get_items zero stream = ([], stream)
    get_items (suc n) stream =
        let (x, stream1) = item.get stream in
        let (items, stream2) = get_items n stream1 in (x ∷ items, stream2)

    -- DBObjectsRequest::toStream
    unfoldable pub put_objects_request : ObjectsRequest T → List ℕ
    put_objects_request r =
        put_db_object s nodes r.object ++ (s.i32.put (pos (length r.items)) ++ put_items r.items)

    -- DBObjectsRequest::fromStream; a negative size reads no objects.
    unfoldable pub get_objects_request : ObjectsRequest T → List ℕ → ObjectsRequest T × List ℕ
    get_objects_request r stream =
        let (object, stream1) = get_db_object s nodes r.object stream in
        let (size, stream2) = s.i32.get stream1 in
        let (items, stream3) = get_items (pos_part size) stream2 in
        (record (clear_items r) { object = object; items = items }, stream3)

    module _ (laws : StreamLaws s) (nodes_laws : NodesLaws nodes) where
      get_items-put_items :
          (items : List T) (rest : List ℕ)
          → AllOf (Reads item) items
          → get_items (length items) (put_items items ++ rest) ≡ (items, rest)
      unfolding get_items put_items
      get_items-put_items [] rest h = refl
      get_items-put_items (x ∷ items) rest h = rw (
        append_assoc (item.put x) (put_items items) rest,
        h.0 (put_items items ++ rest),
        get_items-put_items items rest h.1,
      )

      -- The objects of a request are read back from its stream, but not its conditions: they are
      -- those of the request that is read into.
      pub get_objects_request-put_objects_request :
          (fresh r : ObjectsRequest T) (rest : List ℕ)
          → Fits fresh.object.data_ r.object.data_
          → s.can_stream r.object.address.id ≡ true
          → length r.items < 2 ^ 31
          → AllOf (Reads item) r.items
          → get_objects_request fresh (put_objects_request r ++ rest) ≡ (
            record r {
              object = record r.object { data_ = stored r.object.data_ };
              conditions = fresh.conditions;
            },
            rest,
          )
      unfolding get_objects_request put_objects_request clear_items
      get_objects_request-put_objects_request fresh r rest f k n h =
          let size : List ℕ = s.i32.put (pos (length r.items)) in
          rw (
            append_assoc (put_db_object s nodes r.object) (size ++ put_items r.items) rest,
            append_assoc size (put_items r.items) rest,
            get_db_object-put_db_object s laws nodes nodes_laws fresh.object r.object
                (size ++ (put_items r.items ++ rest)) f k,
            laws.i32-Reads (pos (length r.items)) (omega arith, omega arith)
                (put_items r.items ++ rest),
            get_items-put_items r.items rest h,
          )
