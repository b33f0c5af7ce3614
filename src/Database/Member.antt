-- ===== src/Database/Member.antt =====
-- databasenode.cpp: the trust of an address, and the sending to a member.
--
-- `ids` are the ids of the members behind the addresses (BaseNodeInfo::id), 0 where there is none.
use qt_network_protocol.Prelude.{
  ℕ, ◌≡◌, [], ◌∷◌, Bool, false, not, Option, none, some, Dict, lookup, if◌then◌else◌, ◌==◌, arith,
  ℤ,
}
use qt_network_protocol.HostAddress.{HostAddress, host_address_eq}
use qt_network_protocol.Node.State.{Node, change_trust}
use qt_network_protocol.Database.Object.{Hashes}
use qt_network_protocol.Cache.{Sql}
use qt_network_protocol.Database.Permission.{DataBaseNode}
use qt_network_protocol.Database.Operation.{change_member_trust}

pub record MemberNode : Type 0 where
  pub node : DataBaseNode
  pub base : Node
  pub ids : Dict HostAddress ℕ

-- DataBaseNode::changeTrust of an address
unfoldable pub change_address_trust :
    Sql → Hashes → ℕ → HostAddress → ℤ → MemberNode → MemberNode × Bool
change_address_trust sql hashes now address diff n = elim (lookup address n.ids) [
  | none ↦ (n, false)
  | some id ↦
      let (node, told) = change_member_trust sql hashes now id diff n.node in
      let (base, changed) = change_trust address diff n.base in
      if not (id == 0)
      then (record n { node = node }, told)
      else (record n { base = base }, changed)
]

-- The loop of DataBaseNode::sendData to a member: the first of the addresses with its id.
unfoldable pub find_member : ℕ → Dict HostAddress ℕ → Option HostAddress
find_member id [] = none
find_member id ((address, other) ∷ rest) =
    let later = find_member id rest in if other == id then some address else later

-- DataBaseNode::sendData to a member, for the hash that sendData to an address gives.
unfoldable pub send_to_member : (HostAddress → ℕ) → ℕ → Dict HostAddress ℕ → ℕ
send_to_member sends id ids = elim (find_member id ids) [ none ↦ 0 | some address ↦ sends address ]

-- Punishing an address changes the trust of the member behind it in the database, and not that of
-- the address, when there is a member; otherwise that of the address, and not the database.
pub change_address_trust-one :
    (sql : Sql) (hashes : Hashes) (now id : ℕ) (address : HostAddress) (diff : ℤ) (n : MemberNode)
    → lookup address n.ids ≡ some id
    → let after = (change_address_trust sql hashes now address diff n).0 in
      (after.base ≡ (if id == 0 then (change_trust address diff n.base).0 else n.base))
      × (after.node
          ≡ (if id == 0 then n.node else (change_member_trust sql hashes now id diff n.node).0))
unfolding change_address_trust
change_address_trust-one sql hashes now id address diff n known =
    (ground (arith, known), ground (arith, known))
