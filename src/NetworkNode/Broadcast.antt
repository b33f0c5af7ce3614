-- ===== src/NetworkNode/Broadcast.antt =====
-- networknode.cpp: what sending a package leaves of the node, and the broadcast.
use qt_network_protocol.Prelude.{
  length, ℕ, suc, ◌≡◌, refl, sym, ap, ◌∙◌, List, [], ◌∷◌, ◌++◌, Bool, false, none, arith,
  append_assoc, append-nil, Dict, Option-cases, inl, inr,
}
use qt_network_protocol.HostAddress.{HostAddress}
use qt_network_protocol.Transport.{Transport}
use qt_network_protocol.NetworkNode.{
  NetworkNode, NetworkNodeInfo, Base, Message, transport, send_to, broadcast_each, broadcast,
  find_knowing, send_to_node, add_hash,
}

-- All but what was sent is the same.
pub record Unmoved (n m : NetworkNode) : Type 0 where
  pub router : m.router ≡ n.router
  pub address : m.address ≡ n.address

-- The entries of the log for a package given to each peer.
abbrev pub to_all : Message → Dict HostAddress NetworkNodeInfo → List (HostAddress × Message)
to_all m [] = []
to_all m ((address, _) ∷ rest) = (address, m) ∷ to_all m rest

pub length-to_all :
    (m : Message) (peers : Dict HostAddress NetworkNodeInfo)
    → length (to_all m peers) ≡ length peers
length-to_all m [] = refl
length-to_all m ((address, info) ∷ rest) = ap suc (length-to_all m rest)

module _ (base : Base) where
  broadcast_each-Unmoved :
      (m : Message) (peers : Dict HostAddress NetworkNodeInfo) (r : Bool) (h : ℕ) (n : NetworkNode)
      → Unmoved n (broadcast_each base m peers r h n).0
  unfolding broadcast_each send_to
  broadcast_each-Unmoved m [] r h n = record { router = refl; address = refl }
  broadcast_each-Unmoved m ((address, info) ∷ rest) r h n =
      let (n', hash) = send_to base m address n in
      let later = broadcast_each-Unmoved m rest (add_hash r hash) hash n' in
      record { router = later.router; address = later.address }

  pub send_to_node-Unmoved :
      (t : Transport) (id : ℕ) (n : NetworkNode)
      → Unmoved n (send_to_node base (transport t) id n).0
  unfolding send_to_node broadcast send_to
  send_to_node-Unmoved t id n = elim (Option-cases (find_knowing id n.connections)) [
    | inr (a, e) ↦ record { router = ground (arith, e); address = ground (arith, e) }
    | inl e ↦
        let kept = broadcast_each-Unmoved (transport t) n.connections false 0 n in
        record {
          router = ground (arith, e, kept.router);
          address = ground (arith, e, kept.address);
        }
  ]

  broadcast_each-sent :
      (m : Message) (peers : Dict HostAddress NetworkNodeInfo) (r : Bool) (h : ℕ) (n : NetworkNode)
      → (broadcast_each base m peers r h n).0.sent ≡ n.sent ++ to_all m peers
  unfolding broadcast_each send_to
  broadcast_each-sent m [] r h n = sym (append-nil n.sent)
  broadcast_each-sent m ((address, info) ∷ rest) r h n =
      let (n', hash) = send_to base m address n in
      broadcast_each-sent m rest (add_hash r hash) hash n'
      ∙ append_assoc n.sent ((address, m) ∷ []) (to_all m rest)

  broadcast_each-last :
      (m : Message) (front : Dict HostAddress NetworkNodeInfo) (last : HostAddress)
      (info : NetworkNodeInfo) (r : Bool) (h : ℕ) (n : NetworkNode)
      → ((log : List (HostAddress × Message)) → base.sends log last m ≡ 0)
      → (broadcast_each base m (front ++ ((last, info) ∷ [])) r h n).1.1 ≡ 0
  unfolding broadcast_each send_to
  broadcast_each-last m [] last info r h n refuses = refuses n.sent
  broadcast_each-last m ((address, i) ∷ front) last info r h n refuses =
      let (n', hash) = send_to base m address n in
      broadcast_each-last m front last info (add_hash r hash) hash n' refuses

  -- A transported package that no peer is known to lead to is given to every peer, and where the
  -- last one refuses it, the result is 0, whatever the others did.
  pub send_to_node-broadcast :
      (t : Transport) (id : ℕ) (front : Dict HostAddress NetworkNodeInfo) (last : HostAddress)
      (info : NetworkNodeInfo) (n : NetworkNode)
      → n.connections ≡ front ++ ((last, info) ∷ [])
      → find_knowing id n.connections ≡ none
      → ((log : List (HostAddress × Message)) → base.sends log last (transport t) ≡ 0)
      → ((send_to_node base (transport t) id n).1 ≡ 0)
        × ((send_to_node base (transport t) id n).0.sent
            ≡ n.sent ++ to_all (transport t) n.connections)
  unfolding send_to_node broadcast
  send_to_node-broadcast t id front last info n peers unknown refuses =
      let last_hash = broadcast_each-last (transport t) front last info false 0 n refuses in
      let m = transport t in
      let moved =
        ap (λ (ps : Dict HostAddress NetworkNodeInfo). (broadcast_each base m ps false 0 n).1.1)
          peers in
      (
        ground (arith, unknown, moved, last_hash),
        ground (arith, unknown, broadcast_each-sent m n.connections false 0 n),
      )
