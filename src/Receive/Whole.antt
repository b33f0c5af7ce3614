-- ===== src/Receive/Whole.antt =====
-- AbstractNode::avelableBytes on what well-behaved peers send: whole packages, with the reads cut
-- between packages or inside a header.
use qt_network_protocol.Prelude.{
  ℕ, zero, suc, ◌+◌, ◌-◌, ◌≤◌, ◌<◌, ◌≡◌, refl, ap, sym, ◌∙◌, List, [], ◌∷◌, ◌++◌, some, true,
  length, take, drop, mid, min, length-append, take-append, drop-append, append_assoc, append-nil,
  take-all, arith,
}
use qt_network_protocol.Package.{
  Package, Header, HeaderInRange, reset, header_size, header_bytes, header_of_bytes,
  header_is_valid, to_bytes, is_valid,
}
use qt_network_protocol.Package.Bytes.{
  length-header_bytes, length-to_bytes, header_of_bytes-header_bytes,
}
use qt_network_protocol.Package.Valid.{valid_size}
use qt_network_protocol.Receive.{
  ReceiveData, no_data, collect, deliver, round, loop, avelable_bytes,
}

-- A slice that begins behind a prefix of known length.
pub mid-append :
    (at n : ℕ) (pre xs ys : List ℕ)
    → length pre ≡ at
    → length xs ≡ n
    → mid (pre ++ (xs ++ ys)) at n ≡ xs
mid-append at n pre xs ys e k =
    ap (take n) (drop-append at pre (xs ++ ys) e) ∙ take-append n xs ys k

-- CASE 2 with the whole package in the array.
pub collect_frame :
    (pre hb body rest : List ℕ) (h : Header)
    → length hb ≡ header_size
    → header_of_bytes hb ≡ h
    → h.size ≡ length body
    → collect (pre ++ (hb ++ (body ++ rest))) (length pre) no_data ≡ (
      length pre + (header_size + h.size),
      record { pkg = record { hdr = h; bytes = body }; hdr_array = [] },
    )
unfolding collect header_is_valid
collect_frame pre hb body rest h e d k =
    let array = pre ++ (hb ++ (body ++ rest)) in
    let total : length array ≡ length pre + (header_size + (length body + length rest)) = omega (
      arith,
      length-append pre (hb ++ (body ++ rest)),
      length-append hb (body ++ rest),
      length-append body rest,
    ) in
    let all : min h.size (length array - header_size - length pre) ≡ h.size = omega arith in
    let data_at : mid array (length pre + header_size) h.size ≡ body =
      ap (take h.size) (
        ap (drop (length pre + header_size)) (sym (append_assoc pre hb (body ++ rest)))
        ∙ drop-append (length pre + header_size) (pre ++ hb) (body ++ rest)
            (omega (arith, length-append pre hb)))
      ∙ take-append h.size body rest (sym k) in
    ground (arith, mid-append (length pre) header_size pre hb (body ++ rest) refl e)

module _ (q_hash : List ℕ → ℕ) where
  -- What a peer sends: a valid package whose header fits its widths.
  pub record IsSound (p : Package) : Type 0 where
    pub valid : is_valid q_hash p ≡ true
    pub in_range : HeaderInRange p.hdr

  abbrev pub AllSound : List Package → Type 0
  AllSound [] = Unit {0}
  AllSound (p ∷ ps) = IsSound p × AllSound ps

abbrev pub frames : List Package → List ℕ
frames [] = []
frames (p ∷ ps) = to_bytes p ++ frames ps

module _ (q_hash : List ℕ → ℕ) where
  deliver_valid :
      (p : Package)
      → is_valid q_hash p ≡ true
      → deliver q_hash (record { pkg = p; hdr_array = [] }) ≡ (no_data, p ∷ [])
  unfolding deliver
  deliver_valid p v = rw v

  round_frame :
      (pre rest : List ℕ) (p : Package)
      → IsSound q_hash p
      → round q_hash (pre ++ (to_bytes p ++ rest)) (length pre) no_data
        ≡ (length (pre ++ to_bytes p), no_data, p ∷ [])
  unfolding round to_bytes
  round_frame pre rest p s = rw (append_assoc (header_bytes p.hdr) p.bytes rest) (
      ground (
        arith,
        collect_frame pre (header_bytes p.hdr) p.bytes rest p.hdr (length-header_bytes p.hdr)
            (header_of_bytes-header_bytes p.hdr s.in_range) (valid_size q_hash p s.valid),
        deliver_valid p s.valid,
        valid_size q_hash p s.valid,
        length-header_bytes p.hdr,
        length-append (header_bytes p.hdr) p.bytes,
        length-append pre (header_bytes p.hdr ++ p.bytes),
      ))

  round_tail :
      (pre tail : List ℕ)
      → length tail < header_size
      → round q_hash (pre ++ tail) (length pre) no_data
        ≡ (length (pre ++ tail), record { pkg = reset; hdr_array = tail }, [])
  unfolding round collect deliver header_is_valid is_valid
  round_tail pre tail t =
      let rest : mid (pre ++ tail) (length pre) (length tail) ≡ tail =
        ap (take (length tail)) (drop-append (length pre) pre tail refl)
        ∙ take-all (length tail) tail (omega arith) in
      ground (arith, length-append pre tail)

  pub loop_end :
      (fuel : ℕ) (array : List ℕ) (at : ℕ) (r : ReceiveData)
      → 0 < fuel
      → length array ≤ at
      → loop q_hash fuel array at r ≡ some (r, [])
  unfolding loop
  loop_end zero array at r h e = absurd (omega arith)
  loop_end (suc fuel) array at r h e = ground arith

  -- One round, then the rest of the loop.
  pub loop-round :
      (fuel : ℕ) (array : List ℕ) (at next : ℕ) (r kept last : ReceiveData)
      (out outs : List Package)
      → at < length array
      → round q_hash array at r ≡ (next, kept, out)
      → loop q_hash fuel array next kept ≡ some (last, outs)
      → loop q_hash (suc fuel) array at r ≡ some (last, out ++ outs)
  unfolding loop
  loop-round fuel array at next r kept last out outs h e l = ground arith

  loop_tail :
      (fuel : ℕ) (pre tail : List ℕ)
      → 1 < fuel
      → length tail < header_size
      → loop q_hash fuel (pre ++ tail) (length pre) no_data
        ≡ some (record { pkg = reset; hdr_array = tail }, [])
  loop_tail zero pre tail h t = absurd (omega arith)
  loop_tail (suc fuel) pre [] h t =
      rw (append-nil pre) (loop_end (suc fuel) pre (length pre) no_data (omega arith) (omega arith))
  loop_tail (suc fuel) pre (x ∷ tail) h t =
      loop-round fuel (pre ++ (x ∷ tail)) (length pre) (length (pre ++ (x ∷ tail))) no_data _ _ []
        [] (omega (arith, length-append pre (x ∷ tail))) (round_tail pre (x ∷ tail) t)
        (loop_end fuel (pre ++ (x ∷ tail)) (length (pre ++ (x ∷ tail))) _ (omega arith)
          (omega arith))

  loop-frames :
      (fuel : ℕ) (pre tail : List ℕ) (ps : List Package)
      → length ps + 1 < fuel
      → length tail < header_size
      → AllSound q_hash ps
      → loop q_hash fuel (pre ++ (frames ps ++ tail)) (length pre) no_data
        ≡ some (record { pkg = reset; hdr_array = tail }, ps)
  loop-frames fuel pre tail [] h t s = loop_tail fuel pre tail h t
  loop-frames zero pre tail (p ∷ ps) h t s = absurd (omega arith)
  loop-frames (suc fuel) pre tail (p ∷ ps) h t s =
      let array = pre ++ (frames (p ∷ ps) ++ tail) in
      let same : array ≡ (pre ++ to_bytes p) ++ (frames ps ++ tail) = simp append_assoc in
      loop-round fuel array (length pre) (length (pre ++ to_bytes p)) no_data no_data _ (p ∷ []) ps
        (omega (
          arith,
          length-append pre (frames (p ∷ ps) ++ tail),
          length-append (to_bytes p) (frames ps),
          length-append (frames (p ∷ ps)) tail,
          length-to_bytes p,
        ))
        (rw (append_assoc (to_bytes p) (frames ps) tail)
          (round_frame pre (frames ps ++ tail) p s.0))
        (rw same (loop-frames fuel (pre ++ to_bytes p) tail ps (omega arith) t s.1))

  -- A read that ends within a header, or between packages: all that is left over from the read
  -- before, with what is ready now, is the bytes of sound packages and fewer bytes than a header.
  -- With fuel for one round more than there are packages and a last one, exactly those packages are
  -- delivered, in order, and the bytes left over are kept for the next read.
  pub avelable_bytes-frames :
      (fuel : ℕ) (held ready tail : List ℕ) (ps : List Package)
      → length ps + 1 < fuel
      → length tail < header_size
      → AllSound q_hash ps
      → held ++ ready ≡ frames ps ++ tail
      → avelable_bytes q_hash fuel (some ready) (record { pkg = reset; hdr_array = held })
        ≡ some (record { pkg = reset; hdr_array = tail }, ps)
  unfolding avelable_bytes
  avelable_bytes-frames fuel held ready tail ps h t s e = rw e (loop-frames fuel [] tail ps h t s)
