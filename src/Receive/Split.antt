-- ===== src/Receive/Split.antt =====
-- AbstractNode::avelableBytes on a package whose data comes in two reads.
use qt_network_protocol.Prelude.{
  ℕ, zero, suc, ◌+◌, ◌-◌, ◌≤◌, ◌<◌, ◌≡◌, ap, ◌∙◌, List, [], ◌++◌, some, true, length, take, drop,
  mid, min, length-append, length-drop, arith, take-append, drop-append, take-all,
}
use qt_network_protocol.Package.{
  Header, HeaderInRange, header_size, header_bytes, header_of_bytes, header_is_valid,
}
use qt_network_protocol.Package.Bytes.{length-header_bytes, header_of_bytes-header_bytes}
use qt_network_protocol.Package.Valid.{valid_size}
use qt_network_protocol.Receive.{
  ReceiveData, no_data, collect, deliver, round, loop, avelable_bytes,
}
use qt_network_protocol.Receive.Whole.{loop-round, loop_end}

-- The data held while a package is not complete.
abbrev pub partial : Header → List ℕ → ReceiveData
partial h body = record { pkg = record { hdr = h; bytes = body }; hdr_array = [] }

collect-partial :
    (hb body : List ℕ) (h : Header)
    → length hb ≡ header_size
    → header_of_bytes hb ≡ h
    → length body ≤ h.size
    → collect (hb ++ body) 0 no_data ≡ (length (hb ++ body), partial h body)
unfolding collect header_is_valid
collect-partial hb body h e d k =
    let hdr_at : take header_size (hb ++ body) ≡ hb = take-append header_size hb body e in
    let total : length (hb ++ body) ≡ header_size + length body =
      omega (arith, length-append hb body) in
    let all : min h.size (length (hb ++ body) - header_size - 0) ≡ length body = omega arith in
    let data_at : mid (hb ++ body) header_size (length body) ≡ body =
      ap (take (length body)) (drop-append header_size hb body e)
      ∙ take-all (length body) body (omega arith) in
    ground arith

-- CASE 1, when the rest of the data is all that is there.
collect_rest :
    (h : Header) (body rest : List ℕ)
    → header_is_valid h ≡ true
    → length body + length rest ≡ h.size
    → collect rest 0 (partial h body) ≡ (length rest, partial h (body ++ drop header_size rest))
unfolding collect
collect_rest h body rest v k =
    let left : min (h.size - length body) (length rest - 0) ≡ length rest = omega arith in
    let behind : mid rest (0 + header_size) (length rest) ≡ drop header_size rest =
      take-all (length rest) (drop header_size rest)
        (omega (arith, length-drop header_size rest)) in
    ground arith

module _ (q_hash : List ℕ → ℕ) where
  deliver-partial :
      (h : Header) (body : List ℕ)
      → length body < h.size
      → deliver q_hash (partial h body) ≡ (partial h body, [])
  unfolding deliver
  deliver-partial h body k = ground (arith, valid_size q_hash (record { hdr = h; bytes = body }))

  one_round :
      (fuel : ℕ) (array : List ℕ) (r : ReceiveData) (h : Header) (body : List ℕ)
      → 1 < fuel
      → 0 < length array
      → collect array 0 r ≡ (length array, partial h body)
      → length body < h.size
      → loop q_hash fuel array 0 r ≡ some (partial h body, [])
  unfolding round
  one_round zero array r h body f n c k = absurd (omega arith)
  one_round (suc fuel) array r h body f n c k =
      loop-round q_hash fuel array 0 (length array) r (partial h body) (partial h body) [] [] n
        (ground (arith, deliver-partial h body k))
        (loop_end q_hash fuel array (length array) (partial h body) (omega arith) (omega arith))

  -- The header and the first part of the data in one read, the rest of the data in the next: nothing
  -- is delivered by either read, whatever the hash, and the first 12 bytes of the second part are
  -- missing from the data that is held.
  pub avelable_bytes-split :
      (fuel : ℕ) (h : Header) (first second : List ℕ)
      → 1 < fuel
      → HeaderInRange h
      → header_is_valid h ≡ true
      → length first + length second ≡ h.size
      → 0 < length second
      → (avelable_bytes q_hash fuel (some (header_bytes h ++ first)) no_data
          ≡ some (partial h first, []))
        × (avelable_bytes q_hash fuel (some second) (partial h first)
            ≡ some (partial h (first ++ drop header_size second), []))
  unfolding avelable_bytes
  avelable_bytes-split fuel h first second f r v k n = (
    one_round fuel (header_bytes h ++ first) no_data h first f
        (omega (arith, length-append (header_bytes h) first, length-header_bytes h))
        (collect-partial (header_bytes h) first h (length-header_bytes h)
          (header_of_bytes-header_bytes h r) (omega arith))
        (omega arith),
    one_round fuel second (partial h first) h (first ++ drop header_size second) f n
        (collect_rest h first second v k)
        (omega
          (arith, length-append first (drop header_size second), length-drop header_size second)),
  )
