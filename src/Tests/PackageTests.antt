-- ===== src/Tests/PackageTests.antt =====
-- The packages at concrete inputs.
use qt_network_protocol.Packages.Fields.{put_address, put_token}
use qt_network_protocol.Package.{is_valid}
use qt_network_protocol.Database.Object.{db_address_is_valid}
use qt_network_protocol.Prelude.{
  ℕ, zero, suc, ◌≡◌, refl, List, [], ◌∷◌, ◌++◌, ◌+◌, true, some, none, arith, pos, negsuc, ℤ,
  length,
}
use qt_network_protocol.Sql.{Variant, string, byte_array, other_variant, QtSql}
use qt_network_protocol.Packages.Classes.{
  data_cmd, member_permision_object, UserMember, MemberPermisionObject, user_member,
}
use qt_network_protocol.Packages.Write.{
  put_package_object, put_db_object, put_user_member, put_data, put_network_member,
}
use qt_network_protocol.Packages.Read.{get_package_object}
use qt_network_protocol.Packages.RoundTrip.{received, get_package_object-put_package_object}
use qt_network_protocol.Packages.Send.{
  object_to_package, object_from_package, filled, base, package_object_is_valid,
}
use qt_network_protocol.Packages.Send.Delivered.{
  object_from_package-object_to_package, object_to_package-member_permision_object,
}
use qt_network_protocol.Packages.Rows.{
  Variants, user_from_sql_record, columns, user_is_valid, user_variant_map, object_is_valid,
}
use qt_network_protocol.Packages.Rows.Stored.{VariantsLaws, user_from_sql_record-columns}
use qt_network_protocol.Packages.Clone.{Names}
use qt_network_protocol.Packages.Clone.Kept.{Kept}
use qt_network_protocol.Tests.PackageSamples.{stream, stream_laws, nodes, nodes_laws}

-- A QVariant is its number behind the code of its type.
abbrev to_number : Variant → ℕ
to_number (other_variant (n ∷ _)) = n
to_number _ = 0

abbrev to_int : Variant → ℤ
to_int (other_variant (zero ∷ n ∷ _)) = pos n
to_int (other_variant (suc _ ∷ n ∷ _)) = negsuc n
to_int _ = pos 0

abbrev int_variant : ℤ → Variant
int_variant (pos n) = other_variant (0 ∷ n ∷ [])
int_variant (negsuc n) = other_variant (1 ∷ n ∷ [])

abbrev variant_bytes : Variant → List ℕ
variant_bytes (byte_array bytes) = bytes
variant_bytes (string text) = text
variant_bytes _ = []

abbrev variants : Variants
variants = record {
  id_variant = λ id. other_variant (id ∷ []);
  id_of = to_number;
  int_variant = int_variant;
  to_int = to_int;
  byte_variant = λ n. other_variant (n ∷ []);
  to_uint = to_number;
  to_byte_array = variant_bytes;
  to_text = variant_bytes;
  shown = λ id. id ∷ [];
}

to_int-int_variant : (n : ℤ) → to_int (int_variant n) ≡ n
to_int-int_variant (pos n) = refl
to_int-int_variant (negsuc n) = refl

variants_laws : VariantsLaws variants
variants_laws = record {
  id_of-id_variant = λ id. refl;
  to_int-int_variant = λ n h. to_int-int_variant n;
  to_byte_array-byte_array = λ bytes. refl;
}

abbrev hash : List ℕ → ℕ
hash bytes = length bytes + 1000

abbrev blank : ℕ → UserMember
blank cmd = record {
  member = record {
    object = record {
      data_ = record { stored_cmd = 0; class_cmd = cmd };
      address = record { table = 85 ∷ []; id = 0 };
    };
    authentication_data = [];
    trust = pos 100;
  };
  token = record { duration = 0; bytes = [] };
}

abbrev user : UserMember
user = record {
  member = record {
    object = record {
      data_ = record { stored_cmd = 0; class_cmd = 300 };
      address = record { table = 85 ∷ []; id = 9 };
    };
    authentication_data = 1 ∷ 2 ∷ [];
    trust = negsuc 4;
  };
  token = record { duration = 77; bytes = 5 ∷ [] };
}

get_package_object-put_package_object_example :
    get_package_object stream nodes
      (user_member (blank 300))
      (put_package_object stream nodes (user_member user) ++ (6 ∷ []))
    ≡ some (received stream (user_member (blank 300)) (user_member user), 6 ∷ [])
unfolding data_cmd
get_package_object-put_package_object_example =
    get_package_object-put_package_object stream stream_laws nodes nodes_laws
      (user_member (blank 300)) (user_member user) (6 ∷ [])
      ((refl, omega arith), refl, (omega arith, omega arith), omega arith)

object_from_package-object_to_package_example :
    object_from_package hash variants stream nodes
      (filled hash variants stream nodes (user_member user) 4)
      (user_member (blank 300))
    ≡ some (received stream (user_member (blank 300)) (user_member user))
unfolding data_cmd object_to_package package_object_is_valid user_is_valid object_is_valid
    user_variant_map db_address_is_valid is_valid filled base put_package_object put_user_member
    put_network_member put_db_object put_data put_address put_token
object_from_package-object_to_package_example =
    object_from_package-object_to_package hash variants stream stream_laws nodes nodes_laws
      (user_member (blank 300)) (user_member user) 4
      (filled hash variants stream nodes (user_member user) 4)
      ((refl, omega arith), refl, (omega arith, omega arith), omega arith) refl

abbrev permision : MemberPermisionObject
permision = record {
  object = record {
    data_ = record { stored_cmd = 305; class_cmd = 305 };
    address = record { table = 77 ∷ []; id = 0 };
  };
  key = record { id = 0; address_hash = 65 ∷ [] };
  permision = 2;
}

object_to_package-member_permision_object_example :
    object_to_package hash variants stream nodes (member_permision_object permision) 4 ≡ none
object_to_package-member_permision_object_example =
    object_to_package-member_permision_object hash variants stream stream_laws nodes permision 4

abbrev names : Names
names = record {
  q_hash = hash;
  uint_id = λ n. n;
  key_id = λ bytes. length bytes;
  network_members = 85 ∷ [];
  member_permisions = 77 ∷ [];
  user_cmd = 300;
}

user_from_sql_record-columns_example :
    user_from_sql_record variants stream
      (blank 300)
      (columns (user_variant_map variants stream user))
    ≡ (user, true)
unfolding user_is_valid object_is_valid data_cmd user_variant_map db_address_is_valid
user_from_sql_record-columns_example =
    user_from_sql_record-columns stream stream_laws variants variants_laws (blank 300) user refl
      (omega arith, omega arith) (omega arith) refl refl

-- A stand-in for QString::arg that puts the argument behind the text.
abbrev qt_sql : QtSql
qt_sql = record { arg = λ format argument. format ++ argument; prepares = λ text. true }
