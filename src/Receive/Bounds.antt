-- ===== src/Receive/Bounds.antt =====
-- AbstractNode::avelableBytes on any bytes at all: what it delivers and what it keeps.
use qt_network_protocol.Prelude.{
  ℕ, zero, suc, ◌+◌, ◌-◌, ◌≤◌, ◌≡◌, refl, List, [], ◌∷◌, ◌++◌, ◌⊎◌, none, some, true, ltb,
  if◌then◌else◌, length, drop, mid, min, length-append, length-take, arith, inl, inr,
}
use qt_network_protocol.Package.{Package, header_size, header_of_bytes, is_valid}
use qt_network_protocol.Receive.{ReceiveData, collect, deliver, round, loop, avelable_bytes}

-- The data held never outgrows the size that its header states.
abbrev pub Fits : ReceiveData → Type 0
Fits r = length r.pkg.bytes ≤ r.pkg.hdr.size

collect-Fits : (array : List ℕ) (at : ℕ) (r : ReceiveData) → Fits r → Fits (collect array at r).1
unfolding collect
collect-Fits array at r f =
    let left = min (r.pkg.hdr.size - length r.pkg.bytes) (length array - at) in
    let hdr = header_of_bytes (mid array at header_size) in
    let new = min hdr.size (length array - header_size - at) in
    ground (
      arith,
      length-append r.pkg.bytes (mid array (at + header_size) left),
      length-take left (drop (at + header_size) array),
      length-take new (drop (at + header_size) array),
    )

module _ (q_hash : List ℕ → ℕ) where
  abbrev pub AllValid : List Package → Type 0
  AllValid [] = Unit {0}
  AllValid (p ∷ ps) = (is_valid q_hash p ≡ true) × AllValid ps

  AllValid-append : (ps qs : List Package) → AllValid ps → AllValid qs → AllValid (ps ++ qs)
  AllValid-append [] qs v w = w
  AllValid-append (p ∷ ps) qs v w = (v.0, AllValid-append ps qs v.1 w)

  round-Fits :
      (array : List ℕ) (at : ℕ) (r : ReceiveData)
      → Fits r
      → Fits (round q_hash array at r).1 × AllValid (round q_hash array at r).2
  unfolding round deliver
  round-Fits array at r f = ground (arith, collect-Fits array at r f)

  -- The rounds of the loop one after the other, at most `n` of them, whether the loop then ends or
  -- not: the data that is kept and what has been delivered so far.
  unfoldable pub rounds : ℕ → List ℕ → ℕ → ReceiveData → ReceiveData × List Package
  rounds zero array at r = (r, [])
  rounds (suc n) array at r =
      let (next, kept, out) = round q_hash array at r in
      let (last, outs) = rounds n array next kept in
      if ltb at (length array) then (last, out ++ outs) else (r, [])

  rounds-Fits :
      (n : ℕ) (array : List ℕ) (at : ℕ) (r : ReceiveData)
      → Fits r
      → Fits (rounds n array at r).0 × AllValid (rounds n array at r).1
  unfolding rounds
  rounds-Fits zero array at r f = (f, tt)
  rounds-Fits (suc n) array at r f =
      let next = round q_hash array at r in
      let now = round-Fits array at r f in
      let later = rounds-Fits n array next.0 next.1 now.0 in
      ground (arith, later, AllValid-append next.2 (rounds n array next.0 next.1).1 now.1 later.1)

  loop-rounds :
      (n : ℕ) (array : List ℕ) (at : ℕ) (r : ReceiveData)
      → (loop q_hash n array at r ≡ none) ⊎ (loop q_hash n array at r ≡ some (rounds n array at r))
  unfolding loop rounds
  loop-rounds zero array at r = inl refl
  loop-rounds (suc n) array at r =
      let next = round q_hash array at r in
      elim (loop-rounds n array next.0 next.1) [
        | inl e ↦ ground (arith, e)
        | inr e ↦ ground (arith, e)
      ]

  -- Whatever bytes come, on data held so far that does not outgrow its header, after any number of
  -- rounds of the loop, also of one that does not end: all that has been delivered is valid, and the
  -- data that is kept does not outgrow its header. A loop that ends within that number of rounds
  -- returns just this.
  pub avelable_bytes-AllValid :
      (n : ℕ) (ready : List ℕ) (r : ReceiveData)
      → Fits r
      → let so_far = rounds n (r.hdr_array ++ ready) 0 (record { pkg = r.pkg; hdr_array = [] }) in
        Fits so_far.0
        × AllValid so_far.1
        × ((avelable_bytes q_hash n (some ready) r ≡ none)
            ⊎ (avelable_bytes q_hash n (some ready) r ≡ some so_far))
  unfolding avelable_bytes
  avelable_bytes-AllValid n ready r f =
      let from : ReceiveData = record { pkg = r.pkg; hdr_array = [] } in
      let held = rounds-Fits n (r.hdr_array ++ ready) 0 from f in
      (held.0, held.1, loop-rounds n (r.hdr_array ++ ready) 0 from)
