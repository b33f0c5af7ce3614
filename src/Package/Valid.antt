-- ===== src/Package/Valid.antt =====
-- What a valid package satisfies.
use qt_network_protocol.Prelude.{ℕ, ◌<◌, ◌≡◌, List, true, length, arith}
use qt_network_protocol.Package.{Package, header_is_valid, is_valid}

module _ (q_hash : List ℕ → ℕ) where
  pub valid_size : (p : Package) → is_valid q_hash p ≡ true → p.hdr.size ≡ length p.bytes
  unfolding is_valid
  valid_size p h = ground arith

  pub valid_header : (p : Package) → is_valid q_hash p ≡ true → header_is_valid p.hdr ≡ true
  unfolding is_valid
  valid_header p h = ground arith

  pub valid_nonempty : (p : Package) → is_valid q_hash p ≡ true → 0 < p.hdr.size
  unfolding is_valid
  valid_nonempty p h = ground arith
