-- ===== src/Packages/ReadBack.antt =====
-- The values that the packages consist of, written to a stream and read back.
use qt_network_protocol.Prelude.{ℕ, ◌^◌, ◌<◌, ◌≡◌, append_assoc, List, ◌++◌, true, pos, arith}
use qt_network_protocol.Stream.{Stream, StreamLaws, IsInt32}
use qt_network_protocol.HostAddress.{HostAddress}
use qt_network_protocol.Database.Object.{DbAddress, PermisionData}
use qt_network_protocol.Database.Token.{AccessToken}
use qt_network_protocol.KeyStorage.{CryptoPairKeys}
use qt_network_protocol.Packages.Fields.{
  Nodes, put_address, get_address, put_permision, get_permision, put_token, get_token, put_host,
  get_host, put_pair, get_pair, put_node, get_node,
}

-- The numbers of the nodes and their raw identities correspond.
pub record NodesLaws (nodes : Nodes) : Type 0 where
  pub node-raw : (n : ℕ) → nodes.node (nodes.raw n) ≡ n

module _ (s : Stream) (laws : StreamLaws s) where
  pub get_address-put_address :
      (a : DbAddress) (rest : List ℕ)
      → s.can_stream a.id ≡ true
      → get_address s (put_address s a ++ rest) ≡ (a, rest)
  unfolding get_address put_address
  get_address-put_address a rest h = rw (
    append_assoc (s.variant.put a.id) (s.string.put a.table) rest,
    laws.variant-Reads a.id h (s.string.put a.table ++ rest),
    laws.string-Reads a.table rest,
  )

  pub get_permision-put_permision :
      (p : PermisionData) (rest : List ℕ)
      → s.can_stream p.id ≡ true
      → get_permision s (put_permision s p ++ rest) ≡ (p, rest)
  unfolding get_permision put_permision
  get_permision-put_permision p rest h = rw (
    append_assoc (s.variant.put p.id) (s.string.put p.address_hash) rest,
    laws.variant-Reads p.id h (s.string.put p.address_hash ++ rest),
    laws.string-Reads p.address_hash rest,
  )

  pub get_token-put_token :
      (t : AccessToken) (rest : List ℕ)
      → t.duration < 2 ^ 31
      → get_token s (put_token s t ++ rest) ≡ (t, rest)
  unfolding get_token put_token
  get_token-put_token t rest h = rw (
    append_assoc (s.byte_array.put t.bytes) (s.i32.put (pos t.duration)) rest,
    laws.byte_array-Reads t.bytes (s.i32.put (pos t.duration) ++ rest),
    laws.i32-Reads (pos t.duration) (omega arith, omega arith) rest,
  )

  pub get_host-put_host :
      (a : HostAddress) (rest : List ℕ)
      → a.port < 2 ^ 16
      → get_host s (put_host s a ++ rest) ≡ (a, rest)
  unfolding get_host put_host
  get_host-put_host a rest h = rw (
    append_assoc (s.host.put a.ip) (s.u16.put a.port) rest,
    laws.host-Reads a.ip (s.u16.put a.port ++ rest),
    laws.u16-Reads a.port h rest,
  )

  -- A pair of keys is read back from the bytes that it is stored as.
  pub get_pair-put_pair :
      (p : CryptoPairKeys) (rest : List ℕ)
      → IsInt32 p.bits
      → get_pair s (put_pair s p ++ rest) ≡ (p, rest)
  unfolding get_pair put_pair
  get_pair-put_pair p rest h = rw (
    append_assoc (s.byte_array.put p.public_key) (s.byte_array.put p.priv_key ++ s.i32.put p.bits)
        rest,
    append_assoc (s.byte_array.put p.priv_key) (s.i32.put p.bits) rest,
    laws.byte_array-Reads p.public_key (s.byte_array.put p.priv_key ++ (s.i32.put p.bits ++ rest)),
    laws.byte_array-Reads p.priv_key (s.i32.put p.bits ++ rest),
    laws.i32-Reads p.bits h rest,
  )

  module _ (nodes : Nodes) (nodes_laws : NodesLaws nodes) where
    pub get_node-put_node :
        (n : ℕ) (rest : List ℕ) → get_node s nodes (put_node s nodes n ++ rest) ≡ (n, rest)
    unfolding get_node put_node
    get_node-put_node n rest = rw (laws.byte_array-Reads (nodes.raw n) rest, nodes_laws.node-raw n)
