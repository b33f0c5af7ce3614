-- ===== src/PackageManager/Archive.antt =====
-- What the archive keeps.
use qt_network_protocol.Prelude.{
  ℕ, suc, ◌<◌, ◌≡◌, ◌≢◌, refl, List, [], ◌∷◌, false, some, length, lookup, contains, insert,
  if◌then◌else◌, ◌==◌, arith, Dict, nat_eq, lookup-insert,
}
use qt_network_protocol.Package.{Package}
use qt_network_protocol.PackageManager.{
  PackaData, PackageManager, in_arhive, get_pkg_from_arhive, multi_insert, erase_first, process,
}

length-multi_insert : (t id : ℕ) (d : List (ℕ × ℕ)) → length (multi_insert t id d) ≡ suc (length d)
unfolding multi_insert
length-multi_insert t id [] = refl
length-multi_insert t id ((u, j) ∷ d) = ground (arith, length-multi_insert t id d)

length-insert :
    (k : ℕ) (v : PackaData) (d : Dict ℕ PackaData)
    → contains k d ≡ false
    → length (insert k v d) ≡ suc (length d)
unfolding insert contains lookup
length-insert k v [] h = refl
length-insert k v ((j, w) ∷ d) h = ground (arith, h, length-insert k v d)

module _ (package_cache_size : ℕ) where
  -- A package with a hash that is processed is what the archive gives for its hash from then on, and
  -- nothing else is ever forgotten: every other hash gives what it gave.
  pub get_pkg_from_arhive-process :
      (now result id : ℕ) (pkg : Package) (m : PackageManager)
      → package_cache_size ≢ 0
      → pkg.hdr.hash ≢ 0
      → get_pkg_from_arhive id (process package_cache_size now pkg result m)
        ≡ (if pkg.hdr.hash == id then some pkg else get_pkg_from_arhive id m)
  unfolding get_pkg_from_arhive process
  get_pkg_from_arhive-process now result id pkg m size hash =
      let parsed : PackaData = record { parse_result = result; pkg = pkg } in
      ground (arith, size, hash, lookup-insert pkg.hdr.hash id parsed m.parse_results)

  -- Above its limit the archive still grows by every package of a new hash, while the table of times
  -- stays as long as it is.
  pub process_grows :
      (now result : ℕ) (pkg : Package) (m : PackageManager)
      → package_cache_size ≢ 0
      → pkg.hdr.hash ≢ 0
      → in_arhive pkg.hdr.hash m ≡ false
      → package_cache_size < length m.parse_results
      → 0 < length m.process_time
      → let m' = process package_cache_size now pkg result m in
        (length m'.parse_results ≡ suc (length m.parse_results))
        × (length m'.process_time ≡ length m.process_time)
  unfolding process in_arhive
  process_grows now result pkg m size hash fresh full times =
      let parsed : PackaData = record { parse_result = result; pkg = pkg } in
      ground (
        arith,
        size,
        hash,
        fresh,
        full,
        times,
        length-insert pkg.hdr.hash parsed m.parse_results fresh,
        length-multi_insert now pkg.hdr.hash (erase_first m.process_time),
      )
