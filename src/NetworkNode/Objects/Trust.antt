-- ===== src/NetworkNode/Objects/Trust.antt =====
-- What a NodeObject package makes the node write to its database.
--
-- `recording` notes the writes of any database, each with what the database had under the id right
-- before it, so that the theorems hold for whatever a database does.
use qt_network_protocol.Prelude.{
  lookup-insert, ◌≡◌, ◌∙◌, refl, sym, subst, List, [], ◌∷◌, ◌++◌, true, Option, none, some, ℤ, pos,
  ◌≤ℤ◌, arith, lookup, Option-cases, inl, inr,
}
use mathlib.Core.Option.{map as map_option}
use qt_network_protocol.HostAddress.{HostAddress, host_address_eq}
use qt_network_protocol.NetworkNode.{NetworkNode, NetworkNodeInfo, set_self_id}
use qt_network_protocol.Packages.Classes.{NodeObject, AbstractNetworkMember}
use qt_network_protocol.NetworkNode.Objects.{
  Members, min_ℤ, member_id, with_trust, store_node_object, work_with_node_object_data,
  work_with_all,
}

-- What the database had under the id, and what is written.
abbrev pub Write : Type 0
Write = Option AbstractNetworkMember × AbstractNetworkMember

abbrev pub recording : {D : Type 0} → Members D → Members (D × List Write)
recording members = record {
  get_member = λ r id. members.get_member r.0 id;
  update_member = λ r m.
      let (db, done) = members.update_member r.0 m in
      ((db, r.1 ++ ((members.get_member r.0 m.object.address.id, m) ∷ [])), done);
  insert_member = λ r m.
      let (db, done) = members.insert_member r.0 m in
      ((db, r.1 ++ ((members.get_member r.0 m.object.address.id, m) ∷ [])), done);
  node_of_id = members.node_of_id;
}

-- A member that is new has the trust 0, and another at most the trust that it had.
abbrev pub NotRaised : Write → Type 0
NotRaised (none, m) = m.trust ≡ pos 0
NotRaised (some old, m) = m.trust ≤ℤ old.trust

abbrev pub AllNotRaised : List Write → Type 0
AllNotRaised [] = Unit {0}
AllNotRaised (w ∷ ws) = NotRaised w × AllNotRaised ws

AllNotRaised-append :
    (ws : List Write) (w : Write) → AllNotRaised ws → NotRaised w → AllNotRaised (ws ++ (w ∷ []))
AllNotRaised-append [] w h n = (n, tt)
AllNotRaised-append (v ∷ ws) w h n = (h.0, AllNotRaised-append ws w h.1 n)

min_ℤ-right : (a b : ℤ) → min_ℤ a b ≤ℤ b
unfolding min_ℤ
min_ℤ-right a b = ground arith

module _ {D : Type 0} (members : Members D) where
  -- The writes so far
  abbrev pub writes : Option (D × List Write) → List Write
  writes none = []
  writes (some (_, ws)) = ws

  store_node_object-writes :
      (node : NodeObject) (db : D) (ws : List Write)
      → (w : Write) × ((store_node_object (recording members) node (db, ws)).0.1 ≡ ws ++ (w ∷ []))
        × NotRaised w
  unfolding store_node_object
  store_node_object-writes node db ws =
      elim (Option-cases (members.get_member db (member_id node))) [
        | inl absent ↦ ((none, (with_trust (pos 0) node).member), ground (arith, absent), refl)
        | inr (local, found) ↦ (
          (some local, (with_trust (min_ℤ node.member.trust local.trust) node).member),
          ground (arith, found),
          min_ℤ-right node.member.trust local.trust,
        )
      ]

  work_with_node_object_data-AllNotRaised :
      (node : NodeObject) (sender : HostAddress) (r : Option (D × List Write)) (n : NetworkNode)
      → AllNotRaised (writes r)
      → AllNotRaised (writes (work_with_node_object_data (recording members) node sender r n).0.0)
  unfolding work_with_node_object_data
  work_with_node_object_data-AllNotRaised node sender none n h = tt
  work_with_node_object_data-AllNotRaised node sender (some (db, ws)) n h =
      let (w, wrote, fine) = store_node_object-writes node db ws in
      let stored = (store_node_object (recording members) node (db, ws)).0 in
      let same : writes
            (work_with_node_object_data (recording members) node sender (some (db, ws)) n).0.0
          ≡ stored.1 =
        ground arith in
      subst AllNotRaised (sym (same ∙ wrote)) (AllNotRaised-append ws w h fine)

  AllNotRaised-work_with_all :
      (packages : List (NodeObject × HostAddress)) (r : Option (D × List Write)) (n : NetworkNode)
      → AllNotRaised (writes r)
      → AllNotRaised (writes (work_with_all (recording members) packages r n).0)
  unfolding work_with_all
  AllNotRaised-work_with_all [] r n h = h
  AllNotRaised-work_with_all ((node, sender) ∷ rest) r n h =
      let next = (work_with_node_object_data (recording members) node sender r n).0 in
      AllNotRaised-work_with_all rest next.0 next.1
        (work_with_node_object_data-AllNotRaised node sender r n h)

  -- Whatever NodeObject packages a node gets, from whichever peers, and whatever its database does
  -- and answers: each object that the node writes has no more trust than what the database returned
  -- for its id right before, or no trust where it returned nothing.
  pub work_with_all-AllNotRaised :
      (packages : List (NodeObject × HostAddress)) (db : D) (n : NetworkNode)
      → AllNotRaised (writes (work_with_all (recording members) packages (some (db, [])) n).0)
  work_with_all-AllNotRaised packages db n =
      AllNotRaised-work_with_all packages (some (db, [])) n tt

  -- A peer that sends a NodeObject with the id of a node that the database has takes its place,
  -- whatever key that node has: the node writes, under the id, the member of the package with the
  -- package's key, and enters the peer under the id, where the database takes the write.
  pub work_with_node_object_data-replaces :
      (node : NodeObject) (sender : HostAddress) (db : D) (n : NetworkNode) (info : NetworkNodeInfo)
      (old : AbstractNetworkMember)
      → lookup sender n.connections ≡ some info
      → members.get_member db (member_id node) ≡ some old
      → ((m : AbstractNetworkMember) → (members.update_member db m).1 ≡ true)
      → let (next, done) =
          work_with_node_object_data (recording members) node sender (some (db, [])) n in
        (w : Write) × (writes next.0 ≡ w ∷ [])
        × (w.0 ≡ some old)
        × (w.1.object ≡ node.member.object)
        × (w.1.authentication_data ≡ node.member.authentication_data)
        × (done ≡ true)
        × (map_option (λ (i : NetworkNodeInfo). i.self_id) (lookup sender next.1.connections)
            ≡ some (members.node_of_id (member_id node)))
  unfolding work_with_node_object_data store_node_object set_self_id
  work_with_node_object_data-replaces node sender db n info old known found takes =
      let kept : AbstractNetworkMember =
        (with_trust (min_ℤ node.member.trust old.trust) node).member in
      let taken = takes kept in
      let entered =
        lookup-insert sender sender (set_self_id (members.node_of_id (member_id node)) info)
          n.connections in
      (
        (some old, kept),
        ground (arith, known, found, taken),
        refl,
        refl,
        refl,
        ground (arith, known, found, taken),
        ground (arith, known, found, taken, entered, host_address_eq.beq_iff sender sender),
      )
