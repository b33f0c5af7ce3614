-- ===== src/Tests/CacheSamples.antt =====
-- Concrete databases, objects and caches.
use qt_network_protocol.Prelude.{
  ℕ, ◌+◌, List, [], ◌∷◌, Bool, true, false, Option, none, some, ◌==◌, if◌then◌else◌,
}
use qt_network_protocol.Database.Object.{
  DbObject, Hashes, other_object, member_permision, member_permision_object,
}
use qt_network_protocol.Cache.{
  Cache, Call, insert_call, update_call, delete_call, Sql, default_mode, force,
}
use qt_network_protocol.Database.Permission.{DataBaseNode}

abbrev pub hashes : Hashes
hashes = record {
  address_key = λ a. a.id;
  permision_key = λ p. p.id + 1000;
  address_hash = λ a. a.id ∷ [];
  member_cmd = 1;
  permision_cmd = 2;
  default_cmd = 3;
  network_members = 1 ∷ [];
  member_permisions = 2 ∷ [];
  default_permisions = 3 ∷ [];
}

-- Every member exists and may read every object.
abbrev select : DbObject → Option (List DbObject)
select template = elim template.content [
  | member_permision key _ ↦ some (member_permision_object hashes key 1 ∷ [])
  | _ ↦ if template.cmd == 1 then some (template ∷ []) else none
]

abbrev pub readable : Sql
readable = record { accepts = λ _ _. true; selects = λ _. select }

-- Takes objects, but no permissions.
abbrev accept_objects : Call → Bool
accept_objects (insert_call obj _) = obj.cmd == 20
accept_objects (update_call obj _) = false
accept_objects (delete_call obj _) = true

abbrev pub without_permissions : Sql
without_permissions = record { accepts = λ _. accept_objects; selects = λ _. select }

abbrev pub thing : ℕ → DbObject
thing id = record {
  address = record { table = 9 ∷ []; id = id };
  cmd = 20;
  db_key = id;
  is_cached = true;
  is_valid = true;
  content = other_object [];
}

-- A cache that has the things 5 and 6 and writes behind.
abbrev pub lazy_cache : Cache
lazy_cache = record {
  cache = (5, thing 5) ∷ (6, thing 6) ∷ [];
  changes = [];
  mode = default_mode;
  last_update_time = 100;
  update_interval = 1000;
  writer_ready = true;
  calls = [];
  signals = [];
}

abbrev pub eager_cache : Cache
eager_cache = record lazy_cache { mode = force }

abbrev pub data_base_node : DataBaseNode
data_base_node = record {
  has_db = true;
  db = eager_cache;
  system_tables = (1 ∷ []) ∷ (2 ∷ []) ∷ [];
}
