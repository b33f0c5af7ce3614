-- ===== src/Packages/Rows.antt =====
-- variantMap, isValid and fromSqlRecord of AbstractNetworkMember and UserMember: the members as rows
-- of their tables.
--
-- A QSqlRecord is the list of its columns. QVariant's conversions are parameters.
pub mod Stored
use qt_network_protocol.Prelude.{
  ℕ, List, [], ◌∷◌, Bool, true, false, ◌&&◌, not, Option, none, some, length, ◌==◌, ℤ, pos, leb_ℤ,
  bytes_eq, if◌then◌else◌,
}
use qt_network_protocol.Qt.{Text}
use qt_network_protocol.Stream.{Stream}
use qt_network_protocol.Sql.{Variant, invalid, byte_array, MemberType, Entry}
use qt_network_protocol.Database.Object.{db_address_is_valid}
use qt_network_protocol.Database.Token.{AccessToken, no_token}
use qt_network_protocol.Packages.Fields.{token_of_bytes, put_token, get_token}
use qt_network_protocol.Packages.Classes.{DbObjectData, AbstractNetworkMember, UserMember, data_cmd}

-- QVariant of an id, of an int and of an unsigned char, toString of an id, and what toInt, toUInt
-- and toByteArray give back
pub record Variants : Type 0 where
  pub id_variant : ℕ → Variant
  pub id_of : Variant → ℕ
  pub int_variant : ℤ → Variant
  pub to_int : Variant → ℤ
  pub byte_variant : ℕ → Variant
  pub to_uint : Variant → ℕ
  pub to_byte_array : Variant → List ℕ
  pub to_text : Variant → Text
  pub shown : ℕ → Text

-- "id"
abbrev pub id_key : Text
id_key = 105 ∷ 100 ∷ []

-- "authenticationData"
abbrev pub authentication_key : Text
authentication_key =
    97 ∷ 117 ∷ 116 ∷ 104 ∷ 101 ∷ 110 ∷ 116 ∷ 105 ∷ 99 ∷ 97 ∷ 116 ∷ 105 ∷ 111 ∷ 110 ∷ 68 ∷ 97 ∷ 116
    ∷ 97 ∷ []

-- "trust"
abbrev pub trust_key : Text
trust_key = 116 ∷ 114 ∷ 117 ∷ 115 ∷ 116 ∷ []

-- "token"
abbrev pub token_key : Text
token_key = 116 ∷ 111 ∷ 107 ∷ 101 ∷ 110 ∷ []

-- MemberType::InsertUpdate and MemberType::PrimaryKey
abbrev pub insert_update : MemberType
insert_update = record { inserts = true; updates = true; unique = false }

abbrev pub primary_key_type : MemberType
primary_key_type = record { inserts = true; updates = false; unique = true }

-- The columns of a record, and the value of one
abbrev pub Columns : Type 0
Columns = List (Text × Variant)

unfoldable pub column : Text → Columns → Option Variant
column key [] = none
column key ((name, value) ∷ rest) =
    let others = column key rest in if bytes_eq name key then some value else others

-- QSqlRecord::value, which is invalid where the column is missing
unfoldable pub value : Text → Columns → Variant
value key q = elim (column key q) [ none ↦ invalid | some v ↦ v ]

-- The columns that an insert query fills with the entries.
unfoldable pub columns : List Entry → Columns
columns [] = []
columns (e ∷ rest) =
    let others = columns rest in if e.type.inserts then (e.key, e.value) ∷ others else others

-- DBObject::isInsertPrimaryKey, for the name of the key and the variant map of the class
unfoldable pub is_insert_primary_key : Text → List Entry → Bool
is_insert_primary_key key [] = false
is_insert_primary_key key (e ∷ rest) =
    let others = is_insert_primary_key key rest in
    if bytes_eq e.key key then e.type.inserts else others

-- DBObject::isValid
unfoldable pub object_is_valid : Text → List Entry → DbObjectData → Bool
unfolding is_insert_primary_key
object_is_valid key entries o =
    if data_cmd o.data_ == 0
    then false
    else if is_insert_primary_key key entries
    then db_address_is_valid o.address
    else not (length o.address.table == 0)

module _ (variants : Variants) where
  abbrev pub authentication_entry : AbstractNetworkMember → Entry
  authentication_entry m = record {
    key = authentication_key;
    value = byte_array m.authentication_data;
    type = insert_update;
  }

  abbrev pub id_entry : DbObjectData → Entry
  id_entry o = record {
    key = id_key;
    value = variants.id_variant o.address.id;
    type = primary_key_type;
  }

  abbrev pub trust_entry : AbstractNetworkMember → Entry
  trust_entry m = record {
    key = trust_key;
    value = variants.int_variant m.trust;
    type = insert_update;
  }

  -- AbstractNetworkMember::variantMap over DBObject::variantMap, in the order of the keys
  unfoldable pub member_variant_map : AbstractNetworkMember → List Entry
  member_variant_map m = authentication_entry m ∷ id_entry m.object ∷ trust_entry m ∷ []

  -- DBObject::fromSqlRecord, for the primary key "id"
  unfoldable pub object_from_sql_record : DbObjectData → Columns → DbObjectData × Bool
  object_from_sql_record o q = elim (column id_key q) [
    | none ↦ (o, false)
    | some v ↦ (record o { address = record o.address { id = variants.id_of v } }, true)
  ]

  -- AbstractNetworkMember::isValid
  unfoldable pub network_member_is_valid : AbstractNetworkMember → Bool
  unfolding member_variant_map
  network_member_is_valid m = object_is_valid id_key (member_variant_map m) m.object

  -- AbstractNetworkMember::fromSqlRecord
  unfoldable pub member_from_sql_record :
      AbstractNetworkMember → Columns → AbstractNetworkMember × Bool
  member_from_sql_record m q =
      let (object, found) = object_from_sql_record m.object q in
      if not found
      then (m, false)
      else (let made : AbstractNetworkMember = record {
        object = object;
        authentication_data = variants.to_byte_array (value authentication_key q);
        trust = variants.to_int (value trust_key q);
      } in
          (made, network_member_is_valid made))

  module _ (s : Stream) where
    -- UserMember::variantMap, in the order of the keys
    unfoldable pub user_variant_map : UserMember → List Entry
    user_variant_map u =
        authentication_entry u.member
        ∷ id_entry u.member.object
        ∷ record { key = token_key; value = byte_array (put_token s u.token); type = insert_update }
        ∷ trust_entry u.member
        ∷ []

    -- UserMember::isValid, which asks for a trust of at most 100
    unfoldable pub user_is_valid : UserMember → Bool
    user_is_valid u =
        object_is_valid id_key (user_variant_map u) u.member.object
        && leb_ℤ u.member.trust (pos 100)

    -- UserMember::fromSqlRecord
    unfoldable pub user_from_sql_record : UserMember → Columns → UserMember × Bool
    user_from_sql_record u q =
        let (member, read) = member_from_sql_record u.member q in
        if not read
        then (record u { member = member }, false)
        else (let made : UserMember = record {
          member = member;
          token = token_of_bytes s (variants.to_byte_array (value token_key q));
        } in
            (made, user_is_valid made))
