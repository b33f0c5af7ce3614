-- ===== src/Database/Object.antt =====
-- Heart/DataBaseSpace/dbaddress.*, packages/dbobject.*, permisiondata.*, packages/networkmember.*,
-- memberpermisionobject.* and defaultpermision.*: addresses, objects and permission keys.
--
-- A QVariant is a number that identifies it, 0 for the invalid one: these sources only compare it
-- and test whether it is valid. The hashes are parameters.
use qt_network_protocol.Prelude.{ℕ, List, Bool, true, ◌&&◌, not, length, ◌==◌, bytes_eq, ℤ}
use qt_network_protocol.Qt.{Text}
use qt_network_protocol.Database.Token.{AccessToken}

-- DbAddress
pub record DbAddress : Type 0 where
  pub table : Text
  pub id : ℕ

-- operator == of two addresses
unfoldable pub address_equal : DbAddress → DbAddress → Bool
address_equal left other = bytes_eq left.table other.table && left.id == other.id

-- DbAddress::isValid
unfoldable pub db_address_is_valid : DbAddress → Bool
db_address_is_valid a = not (a.id == 0) && not (length a.table == 0)

-- PermisionData: the member, and the hash of the object's address.
pub record PermisionData : Type 0 where
  pub id : ℕ
  pub address_hash : Text

-- PermisionData::isValid
unfoldable pub permision_is_valid : PermisionData → Bool
permision_is_valid p = not (length p.address_hash == 0) && not (p.id == 0)

-- The members that the classes of objects add to DBObject.
pub data ObjectContent : Type 0 where
  -- AbstractNetworkMember, with its trust
  network_member : ℤ → ObjectContent
  -- UserMember, with its authentication data, trust and token
  user_member : List ℕ → ℤ → AccessToken → ObjectContent
  -- MemberPermisionObject, and DefaultPermision that derives from it, with key and level
  member_permision default_permision : PermisionData → ℕ → ObjectContent
  other_object : List ℕ → ObjectContent

-- A DBObject with what its class answers to cmd, dbKey, isCached and isValid.
pub record DbObject : Type 0 where
  pub address : DbAddress
  pub cmd : ℕ
  pub db_key : ℕ
  pub is_cached : Bool
  pub is_valid : Bool
  pub content : ObjectContent

-- The hashes and command numbers that the classes use, and the names of their tables.
pub record Hashes : Type 0 where
  -- HASH_KEY of an address and of a permission key
  pub address_key : DbAddress → ℕ
  pub permision_key : PermisionData → ℕ
  -- SHA256Hash().toBase64(...)
  pub address_hash : DbAddress → Text
  pub member_cmd : ℕ
  pub permision_cmd : ℕ
  pub default_cmd : ℕ
  pub network_members : Text
  pub member_permisions : Text
  pub default_permisions : Text

module _ (hashes : Hashes) where
  -- PermisionData(subject, object)
  unfoldable pub permision_data : ℕ → DbAddress → PermisionData
  permision_data subject object = record { id = subject; address_hash = hashes.address_hash object }

  -- NetworkMember{id}
  unfoldable pub network_member_object : ℕ → DbObject
  network_member_object id =
      let address : DbAddress = record { table = hashes.network_members; id = id } in
      record {
        address = address;
        cmd = hashes.member_cmd;
        db_key = hashes.address_key address;
        is_cached = true;
        is_valid = db_address_is_valid address;
        content = network_member (ℤ.pos 0);
      }

  -- MemberPermisionObject with a key and a level; the id is set by `init` only.
  unfoldable pub member_permision_object : PermisionData → ℕ → DbObject
  member_permision_object key level = record {
    address = record { table = hashes.member_permisions; id = 0 };
    cmd = hashes.permision_cmd;
    db_key = hashes.permision_key key;
    is_cached = true;
    is_valid = permision_is_valid key;
    content = member_permision key level;
  }

  -- DefaultPermision with a key and a level
  unfoldable pub default_permision_object : PermisionData → ℕ → DbObject
  default_permision_object key level = record {
    address = record { table = hashes.default_permisions; id = 0 };
    cmd = hashes.default_cmd;
    db_key = hashes.permision_key key;
    is_cached = true;
    is_valid = not (length key.address_hash == 0);
    content = default_permision key level;
  }
