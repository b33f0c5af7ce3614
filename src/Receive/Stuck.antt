-- ===== src/Receive/Stuck.antt =====
-- AbstractNode::avelableBytes on a package whose data is complete and that is not valid.
use qt_network_protocol.Prelude.{
  ℕ, zero, suc, ◌+◌, ◌-◌, ◌<◌, ◌≡◌, refl, List, [], ◌++◌, none, some, true, false, length,
  length-append, append_assoc, append-nil, arith,
}
use qt_network_protocol.Package.{
  Package, HeaderInRange, header_size, header_bytes, header_is_valid, to_bytes, is_valid,
}
use qt_network_protocol.Package.Bytes.{
  length-header_bytes, length-to_bytes, header_of_bytes-header_bytes,
}
use qt_network_protocol.Receive.{
  ReceiveData, no_data, collect, deliver, round, loop, avelable_bytes,
}
use qt_network_protocol.Receive.Whole.{collect_frame}

module _ (q_hash : List ℕ → ℕ) where
  -- Complete, with a valid header, and refused: its hash or its command is wrong.
  pub record IsRefused (p : Package) : Type 0 where
    pub header : header_is_valid p.hdr ≡ true
    pub complete : p.hdr.size ≡ length p.bytes
    pub refused : is_valid q_hash p ≡ false

  round_stuck :
      (array : List ℕ) (at : ℕ) (r : ReceiveData)
      → IsRefused r.pkg
      → round q_hash array at r ≡ (at, r, [])
  unfolding round collect deliver
  round_stuck array at r s =
      let none_left : r.pkg.hdr.size - length r.pkg.bytes ≡ 0 = omega arith in
      let same : r.pkg.bytes ++ [] ≡ r.pkg.bytes = append-nil r.pkg.bytes in ground arith

  -- Once such a package is held, a read that brings any byte never comes to an end.
  pub loop_stuck :
      (fuel : ℕ) (array : List ℕ) (at : ℕ) (r : ReceiveData)
      → IsRefused r.pkg
      → at < length array
      → loop q_hash fuel array at r ≡ none
  unfolding loop
  loop_stuck zero array at r s h = refl
  loop_stuck (suc fuel) array at r s h =
      ground (arith, round_stuck array at r s, loop_stuck fuel array at r s h)

  refused_zero : (array : List ℕ) (r : ReceiveData) → loop q_hash 0 array 0 r ≡ none
  unfolding loop
  refused_zero array r = refl

  loop-none :
      (fuel : ℕ) (array : List ℕ) (at next : ℕ) (r kept : ReceiveData) (out : List Package)
      → at < length array
      → round q_hash array at r ≡ (next, kept, out)
      → loop q_hash fuel array next kept ≡ none
      → loop q_hash (suc fuel) array at r ≡ none
  unfolding loop
  loop-none fuel array at next r kept out h e l = ground arith

  deliver_refused :
      (p : Package)
      → IsRefused p
      → deliver q_hash (record { pkg = p; hdr_array = [] })
        ≡ (record { pkg = p; hdr_array = [] }, [])
  unfolding deliver
  deliver_refused p s = ground arith

  round_refused :
      (p : Package) (extra : List ℕ)
      → HeaderInRange p.hdr
      → IsRefused p
      → round q_hash (to_bytes p ++ extra) 0 no_data
        ≡ (header_size + p.hdr.size, record { pkg = p; hdr_array = [] }, [])
  unfolding round to_bytes
  round_refused p extra r s = rw (append_assoc (header_bytes p.hdr) p.bytes extra) (
      ground (
        arith,
        collect_frame [] (header_bytes p.hdr) p.bytes extra p.hdr (length-header_bytes p.hdr)
            (header_of_bytes-header_bytes p.hdr r) s.complete,
        deliver_refused p s,
      ))

  -- A peer that sends a package with a valid header and all of its data, but refused by the validity
  -- check (a wrong hash, say), and any byte behind it, makes the receiving loop run for ever: no
  -- amount of fuel lets it end.
  pub avelable_bytes-refused :
      (fuel : ℕ) (p : Package) (extra : List ℕ)
      → HeaderInRange p.hdr
      → IsRefused p
      → 0 < length extra
      → avelable_bytes q_hash fuel (some (to_bytes p ++ extra)) no_data ≡ none
  unfolding avelable_bytes
  avelable_bytes-refused zero p extra r s h = refused_zero (to_bytes p ++ extra) no_data
  avelable_bytes-refused (suc fuel) p extra r s h =
      loop-none fuel (to_bytes p ++ extra) 0 (header_size + p.hdr.size) no_data
        (record { pkg = p; hdr_array = [] }) [] (omega (arith, length-append (to_bytes p) extra))
        (round_refused p extra r s)
        (loop_stuck fuel (to_bytes p ++ extra) (header_size + p.hdr.size)
          (record { pkg = p; hdr_array = [] }) s
          (omega (arith, length-append (to_bytes p) extra, length-to_bytes p, s.complete)))
