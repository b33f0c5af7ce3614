-- ===== src/Tests/MemberTests.antt =====
-- The node objects that a network node gets, at concrete inputs.
use qt_network_protocol.Prelude.{
  ℕ, ◌≡◌, refl, List, [], ◌∷◌, true, some, Bool, nat_eq, Dict, lookup, insert, ℤ, pos, negsuc,
}
use mathlib.Core.Option.{map as map_option}
use qt_network_protocol.HostAddress.{HostAddress, host_address_eq, equal}
use qt_network_protocol.Router.{Router}
use qt_network_protocol.NetworkNode.{NetworkNode, NetworkNodeInfo}
use qt_network_protocol.Packages.Classes.{AbstractNetworkMember, NodeObject}
use qt_network_protocol.NetworkNode.Objects.{Members, work_with_node_object_data, work_with_all}
use qt_network_protocol.NetworkNode.Objects.Trust.{
  Write, writes, recording, AllNotRaised, work_with_all-AllNotRaised,
  work_with_node_object_data-replaces,
}

abbrev Db : Type 0
Db = Dict ℕ AbstractNetworkMember

abbrev write : Db → AbstractNetworkMember → Db × Bool
write db m = (insert m.object.address.id m db, true)

abbrev members : Members Db
members = record {
  get_member = λ db id. lookup id db;
  update_member = write;
  insert_member = write;
  node_of_id = λ id. id;
}

abbrev at : ℕ → HostAddress
at ip = record { ip = ip; port = 3090 }

abbrev with_key : ℤ → List ℕ → NodeObject
with_key trust key = record {
  member = record {
    object = record {
      data_ = record { stored_cmd = 0; class_cmd = 320 };
      address = record { table = 85 ∷ []; id = 9 };
    };
    authentication_data = key;
    trust = trust;
  };
  sender_id = 9;
}

-- The database has the node 9 with the key 1.
abbrev db : Db
db = (9, (with_key (negsuc 2) (1 ∷ [])).member) ∷ []

abbrev router : Router
router = record {
  routes = [];
  routes_time_map = [];
  processed_packages = [];
  processed_packages_time_map = [];
}

abbrev node : NetworkNode
node = record {
  address = at 10;
  node_id = 1;
  connections = (at 20, record { know_addresses = []; self_id = 4 }) ∷ [];
  known_nodes = [];
  router = router;
  sent = [];
}

work_with_all-AllNotRaised_example : AllNotRaised (
    writes members
      (work_with_all
        (recording members)
        ((with_key (pos 50) (2 ∷ []), at 20) ∷ (with_key (negsuc 7) (3 ∷ []), at 20) ∷ [])
        (some (db, []))
        node).0)
work_with_all-AllNotRaised_example =
    work_with_all-AllNotRaised members
      ((with_key (pos 50) (2 ∷ []), at 20) ∷ (with_key (negsuc 7) (3 ∷ []), at 20) ∷ []) db node

work_with_node_object_data-replaces_example :
    let other : NodeObject = with_key (pos 50) (2 ∷ []) in
    let (next, done) =
      work_with_node_object_data (recording members) other (at 20) (some (db, [])) node in
    (w : Write) × (writes members next.0 ≡ w ∷ [])
    × (w.0 ≡ some (with_key (negsuc 2) (1 ∷ [])).member)
    × (w.1.object ≡ other.member.object)
    × (w.1.authentication_data ≡ 2 ∷ [])
    × (done ≡ true)
    × (map_option (λ (i : NetworkNodeInfo). i.self_id) (lookup (at 20) next.1.connections) ≡ some 9)
unfolding lookup equal
work_with_node_object_data-replaces_example =
    work_with_node_object_data-replaces members (with_key (pos 50) (2 ∷ [])) (at 20) db node
      (record { know_addresses = []; self_id = 4 }) (with_key (negsuc 2) (1 ∷ [])).member refl refl
      (λ m. refl)
