-- ===== src/Packages/Fields.antt =====
-- The streams of the values that the packages consist of: DbAddress, PermisionData, AccessToken,
-- NodeId, HostAddress, CryptoPairKeys and the number of AbstractData.
use qt_network_protocol.Prelude.{ℕ, List, [], ◌∷◌, ◌++◌, pos, pos_part}
use qt_network_protocol.Stream.{Stream}
use qt_network_protocol.Database.Object.{DbAddress, PermisionData}
use qt_network_protocol.Database.Token.{AccessToken, no_token}
use qt_network_protocol.HostAddress.{HostAddress}
use qt_network_protocol.KeyStorage.{CryptoPairKeys}

-- NodeId::toRaw of a node, and the number of the node with a raw identity
pub record Nodes : Type 0 where
  pub raw : ℕ → List ℕ
  pub node : List ℕ → ℕ

module _ (s : Stream) where
  -- DbAddress::toStream
  unfoldable pub put_address : DbAddress → List ℕ
  put_address a = s.variant.put a.id ++ s.string.put a.table

  -- DbAddress::fromStream
  unfoldable pub get_address : List ℕ → DbAddress × List ℕ
  get_address stream =
      let (id, stream1) = s.variant.get stream in
      let (table, stream2) = s.string.get stream1 in (record { table = table; id = id }, stream2)

  -- PermisionData::toStream
  unfoldable pub put_permision : PermisionData → List ℕ
  put_permision p = s.variant.put p.id ++ s.string.put p.address_hash

  -- PermisionData::fromStream
  unfoldable pub get_permision : List ℕ → PermisionData × List ℕ
  get_permision stream =
      let (id, stream1) = s.variant.get stream in
      let (address_hash, stream2) = s.string.get stream1 in
      (record { id = id; address_hash = address_hash }, stream2)

  -- AccessToken::toStream
  unfoldable pub put_token : AccessToken → List ℕ
  put_token t = s.byte_array.put t.bytes ++ s.i32.put (pos t.duration)

  -- AccessToken::fromStream. A negative duration, which has ended as well, reads as 0.
  unfoldable pub get_token : List ℕ → AccessToken × List ℕ
  get_token stream =
      let (bytes, stream1) = s.byte_array.get stream in
      let (duration, stream2) = s.i32.get stream1 in
      (record { duration = pos_part duration; bytes = bytes }, stream2)

  -- AccessToken(bytes), by StreamBase::fromBytes
  unfoldable pub token_of_bytes : List ℕ → AccessToken
  token_of_bytes [] = no_token
  token_of_bytes (b ∷ bytes) = (get_token (b ∷ bytes)).0

  -- operator << of a HostAddress
  unfoldable pub put_host : HostAddress → List ℕ
  put_host a = s.host.put a.ip ++ s.u16.put a.port

  -- operator >> of a HostAddress
  unfoldable pub get_host : List ℕ → HostAddress × List ℕ
  get_host stream =
      let (ip, stream1) = s.host.get stream in
      let (port, stream2) = s.u16.get stream1 in (record { ip = ip; port = port }, stream2)

  -- CryptoPairKeys::toStream
  unfoldable pub put_pair : CryptoPairKeys → List ℕ
  put_pair p = s.byte_array.put p.public_key ++ (s.byte_array.put p.priv_key ++ s.i32.put p.bits)

  -- CryptoPairKeys::fromStream
  unfoldable pub get_pair : List ℕ → CryptoPairKeys × List ℕ
  get_pair stream =
      let (public_key, stream1) = s.byte_array.get stream in
      let (priv_key, stream2) = s.byte_array.get stream1 in
      let (bits, stream3) = s.i32.get stream2 in
      (record { public_key = public_key; priv_key = priv_key; bits = bits }, stream3)

  module _ (nodes : Nodes) where
    -- NodeId::toStream
    unfoldable pub put_node : ℕ → List ℕ
    put_node node = s.byte_array.put (nodes.raw node)

    -- NodeId::fromStream
    unfoldable pub get_node : List ℕ → ℕ × List ℕ
    get_node stream = let (raw, stream1) = s.byte_array.get stream in (nodes.node raw, stream1)
