-- ===== src/Node/Answer.antt =====
-- What the node sends: sendData, the answer to a Ping, and removeNode.
use qt_network_protocol.Prelude.{
  ℕ, ◌%◌, ◌^◌, ◌<◌, ◌≡◌, ◌≢◌, refl, Bool, true, false, List, [], ◌∷◌, ◌++◌, Option, arith, none,
  some, lookup, length, Option-cases, inl, inr,
}
use qt_network_protocol.HostAddress.{HostAddress, equal_iff, host_address_eq}
use qt_network_protocol.NodeInfo.{NodeInfo, Socket, remove_socket}
use qt_network_protocol.Package.{Package, Header, is_valid, to_bytes}
use qt_network_protocol.Qt.{Qt, QtLaws, Network}
use qt_network_protocol.Data.{
  Data, ping, close_connection, create, cmd, data_is_valid, data_bytes, to_package, prepare_to_send,
  members_valid, generate_cmd,
}
use qt_network_protocol.Data.ToPackage.{carrier, to_package-valid}
use qt_network_protocol.Node.State.{Node, force_remove}
use qt_network_protocol.Node.Send.{send_package, send_converted, send_data_const, send_data}
use qt_network_protocol.Node.Remove.{remove_node, fire, handle_force_remove_node}
use qt_network_protocol.Node.Parse.{parse_package, parse_command, processed}
use qt_network_protocol.Node.Trust.{lookup-update_info}

-- The network takes what is written to the socket.
pub record Delivers (net : Network) (s : Socket) (bytes : List ℕ) : Type 0 where
  pub usable : net.socket_is_valid s.id ≡ true
  pub connects : net.wait_for_connected s.id ≡ true
  pub takes_all : net.writes_all s.id bytes ≡ true

-- The object fits in a package, and its hash is not the 0 of an empty header.
pub record IsSendable (qt : Qt) (d : Data) : Type 0 where
  pub valid : data_is_valid qt d ≡ true
  pub command_bound : cmd qt d < 2 ^ 16
  pub length_bound : length (data_bytes qt d) < 2 ^ 16
  pub hashed : qt.q_hash (data_bytes qt d) % 2 ^ 32 ≢ 0

-- A Ping whose _cmd and _ansver are given.
abbrev pub ping_data : ℕ → Bool → Data
ping_data stored ansver = record { stored_cmd = stored; content = ping ansver }

-- The node after it has written a package to a socket.
abbrev pub wrote : Socket → Package → Node → Node
wrote s p n = record n { sent = n.sent ++ ((s.id, to_bytes p) ∷ []) }

module _ (qt : Qt) (laws : QtLaws qt) (net : Network) where
  send_package-Delivers :
      (p : Package) (s : Socket) (n : Node)
      → is_valid qt.q_hash p ≡ true
      → Delivers net s (to_bytes p)
      → send_package qt net p (some s) n ≡ (wrote s p n, true)
  unfolding send_package
  send_package-Delivers p s n v d = ground arith

  -- A sendable object for a peer that the node knows, over a network that delivers: one package is
  -- written to the peer's socket, in answer to the request, and its hash returned.
  pub send_data-Delivers :
      (d : Data) (address : HostAddress) (req : Header) (n : Node) (i : NodeInfo) (s : Socket)
      → IsSendable qt d
      → req.hash < 2 ^ 32
      → lookup address n.connections ≡ some i
      → i.sct ≡ some s
      → Delivers net s (to_bytes (carrier qt d req.hash))
      → send_data qt net d address (some req) n
        ≡ (wrote s (carrier qt d req.hash) n, qt.q_hash (data_bytes qt d) % 2 ^ 32)
  unfolding send_data send_data_const send_converted prepare_to_send
  send_data-Delivers d address req n i s v b e k net_ok =
      let made =
        to_package-valid qt laws d req.hash v.valid v.command_bound v.length_bound v.hashed b in
      ground (
        arith,
        made.0,
        send_package-Delivers (carrier qt d req.hash) s n made.1 net_ok,
        e,
        k,
        v.valid,
      )

  -- A Ping that asks is answered by one package, which has the bytes of a Ping with the answer flag
  -- set, their size and hash, and the hash of the request as its trigger, written to the sender's socket, when the answer can be sent and the
  -- network delivers. A Ping that answers is not answered, whatever the network does.
  pub parse_package-ping :
      (stored : ℕ) (hdr : Header) (sender i : NodeInfo) (s : Socket) (n : Node)
      → cmd qt (ping_data stored false) ≡ qt.h16_ping
      → IsSendable qt (ping_data stored true)
      → hdr.hash < 2 ^ 32
      → lookup sender.network_address n.connections ≡ some i
      → i.sct ≡ some s
      → Delivers net s (to_bytes (carrier qt (ping_data stored true) hdr.hash))
      → (parse_package qt net (ping_data stored false) hdr (some sender) n
          ≡ (wrote s (carrier qt (ping_data stored true) hdr.hash) n, processed))
        × (parse_package qt net (ping_data stored true) hdr (some sender) n ≡ (n, processed))
  unfolding parse_package parse_command data_is_valid cmd members_valid generate_cmd
  parse_package-ping stored hdr sender i s n c v b e k d = ground (
    arith,
    v.valid,
    send_data-Delivers (ping_data stored true) sender.network_address hdr n i s v b e k d,
  )

module _ (qt : Qt) (net : Network) where
  send_package_keeps :
      (p : Package) (s : Option Socket) (n : Node)
      → ((send_package qt net p s n).0.connections ≡ n.connections)
        × ((send_package qt net p s n).0.timers ≡ n.timers)
  unfolding send_package
  send_package_keeps p s n = ground arith

  send_converted_keeps :
      (o : Option Package) (i : NodeInfo) (n : Node)
      → ((send_converted qt net o i n).0.connections ≡ n.connections)
        × ((send_converted qt net o i n).0.timers ≡ n.timers)
  unfolding send_converted
  send_converted_keeps none i n = (refl, refl)
  send_converted_keeps (some p) i n = ground (arith, send_package_keeps p i.sct n)

  send_data_const_keeps :
      (d : Data) (address : HostAddress) (req : Option Header) (n : Node)
      → ((send_data_const qt net d address req n).0.connections ≡ n.connections)
        × ((send_data_const qt net d address req n).0.timers ≡ n.timers)
  unfolding send_data_const
  send_data_const_keeps d address none n = elim (Option-cases (lookup address n.connections)) [
    | inl e ↦ ground (arith, e)
    | inr (c, e) ↦ ground (arith, e, send_converted_keeps (to_package qt d 0) c n)
  ]
  send_data_const_keeps d address (some hdr) n =
      elim (Option-cases (lookup address n.connections)) [
        | inl e ↦ ground (arith, e)
        | inr (c, e) ↦ ground (arith, e, send_converted_keeps (to_package qt d hdr.hash) c n)
      ]

  -- Sending changes neither the peers nor the timers.
  pub send_data_keeps :
      (d : Data) (address : HostAddress) (req : Option Header) (n : Node)
      → ((send_data qt net d address req n).0.connections ≡ n.connections)
        × ((send_data qt net d address req n).0.timers ≡ n.timers)
  unfolding send_data
  send_data_keeps d address req n =
      ground (arith, send_data_const_keeps (prepare_to_send qt d).0 address req n)

  -- removeNode on a peer that the node knows. A peer to which this node has connected loses its
  -- socket at once. For any other a timer is started, and whatever the network does with the
  -- CloseConnection that is sent, the peer has lost its socket when the timer has fired.
  pub remove_node_disconnects :
      (address : HostAddress) (n : Node) (i : NodeInfo)
      → lookup address n.connections ≡ some i
      → let m = (remove_node qt net address n).0 in
        (i.is_local ≡ true → lookup address m.connections ≡ some (remove_socket i))
        × (i.is_local ≡ false
            → (m.timers ≡ n.timers ++ (force_remove address ∷ []))
              × (lookup address (fire qt net (force_remove address) m).connections
                  ≡ some (remove_socket i)))
  unfolding remove_node fire handle_force_remove_node
  remove_node_disconnects address n i e =
      let timed = record n { timers = n.timers ++ (force_remove address ∷ []) } in
      let told = send_data qt net (create close_connection) address none timed in
      ground (
        arith,
        e,
        send_data_keeps (create close_connection) address none timed,
        lookup-update_info address address remove_socket n,
        lookup-update_info address address remove_socket told.0,
        equal_iff address address,
      )
