-- ===== src/Data/ToPackage.antt =====
-- AbstractData::toPackage: which objects become packages.
use qt_network_protocol.Prelude.{
  ℕ, ◌+◌, ◌%◌, ◌^◌, ◌≤◌, ◌<◌, ◌≡◌, ◌≢◌, true, none, some, length, length-append, arith,
}
use qt_network_protocol.Qt.{Qt, QtLaws}
use qt_network_protocol.Package.{
  Package, HeaderInRange, header_is_valid, is_valid, leading_reversed,
}
use qt_network_protocol.Data.{Data, cmd, data_is_valid, data_bytes, put_content, packed, to_package}

-- The package that is to carry an object in answer to a request.
abbrev pub carrier : Qt → Data → ℕ → Package
carrier qt d trigger_hash = record {
  hdr = record {
    size = length (data_bytes qt d);
    command = cmd qt d;
    hash = qt.q_hash (data_bytes qt d) % 2 ^ 32;
    trigger_hash = trigger_hash;
  };
  bytes = data_bytes qt d;
}

module _ (qt : Qt) (laws : QtLaws qt) where
  length-data_bytes : (d : Data) → length (data_bytes qt d) ≡ 2 + length (put_content qt d.content)
  unfolding data_bytes
  length-data_bytes d = omega (
    arith,
    length-append (qt.put_u16 (cmd qt d)) (put_content qt d.content),
    laws.length-put_u16 (cmd qt d),
  )

  leading-data_bytes :
      (d : Data) → cmd qt d < 2 ^ 16 → leading_reversed (data_bytes qt d) ≡ cmd qt d
  unfolding data_bytes
  leading-data_bytes d h = laws.leading-put_u16 (cmd qt d) (put_content qt d.content) h

  -- A valid object with a 16-bit command, fewer than 65536 bytes and a hash that is not 0 becomes a
  -- package with the object's bytes, their number, the object's command, the low 32 bits of the
  -- hash of the bytes, and the hash of the request that it answers. The package is valid and its
  -- header fits its field widths.
  pub to_package-valid :
      (d : Data) (trigger_hash : ℕ)
      → data_is_valid qt d ≡ true
      → cmd qt d < 2 ^ 16
      → length (data_bytes qt d) < 2 ^ 16
      → qt.q_hash (data_bytes qt d) % 2 ^ 32 ≢ 0
      → trigger_hash < 2 ^ 32
      → (to_package qt d trigger_hash ≡ some (carrier qt d trigger_hash))
        × (is_valid qt.q_hash (carrier qt d trigger_hash) ≡ true)
        × HeaderInRange (carrier qt d trigger_hash).hdr
  unfolding to_package packed is_valid header_is_valid data_is_valid
  to_package-valid d t v c l h b =
      let size : length (data_bytes qt d) % 2 ^ 16 ≡ length (data_bytes qt d) = omega arith in
      ground (arith, length-data_bytes d, leading-data_bytes d c)

  -- An object of 65536 bytes or more is never sent: its length does not fit the header.
  pub to_package-too_long :
      (d : Data) (trigger_hash : ℕ)
      → 2 ^ 16 ≤ length (data_bytes qt d)
      → to_package qt d trigger_hash ≡ none
  unfolding to_package packed is_valid
  to_package-too_long d t l =
      let wraps : length (data_bytes qt d) % 2 ^ 16 ≢ length (data_bytes qt d) = omega arith in
      ground arith
