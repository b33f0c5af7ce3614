-- ===== src/Transport/Strip.antt =====
-- transportdata.cpp: what `strip` takes out of a route.
use qt_network_protocol.Prelude.{
  ℕ, suc, ◌+◌, ◌≡◌, refl, sym, ap, ◌∙◌, List, [], ◌∷◌, ◌++◌, true, false, Option, none, some,
  length, take, drop, if◌then◌else◌, arith, take-append, length-append, drop-append, append_assoc,
}
use qt_network_protocol.HostAddress.{HostAddress, equal, equal_iff}
use qt_network_protocol.Transport.{Transport, has_address, index_of, strip_bounds, strip, erase}

-- The place of an address that is not on the route.
pub index_of-none :
    (a : HostAddress) (route : List HostAddress)
    → has_address a route ≡ false
    → index_of a route ≡ none
unfolding has_address index_of
index_of-none a [] h = refl
index_of-none a (x ∷ xs) h = ground (arith, h, index_of-none a xs (ground (arith, h)))

-- Where the end is not on the route, the loop finds none.
strip_bounds-none :
    (corrent target : HostAddress) (i : ℕ) (begin : Option ℕ) (route : List HostAddress)
    → has_address target route ≡ false
    → (strip_bounds corrent target i begin route).1 ≡ none
unfolding has_address strip_bounds
strip_bounds-none corrent target i begin [] h = refl
strip_bounds-none corrent target i begin (x ∷ xs) h = ground (
  arith,
  h,
  strip_bounds-none corrent target (suc i) (if equal corrent x then some i else begin) xs
      (ground (arith, h)),
)

pub strip-none :
    (corrent target : HostAddress) (t : Transport)
    → has_address target t.route ≡ false
    → strip corrent target t ≡ (t, false)
unfolding strip
strip-none corrent target t h = ground (arith, strip_bounds-none corrent target 0 none t.route h)

-- Addresses that are neither of the two do not move the bounds.
strip_bounds-append :
    (corrent target : HostAddress) (i : ℕ) (begin : Option ℕ) (front route : List HostAddress)
    → has_address corrent front ≡ false
    → has_address target front ≡ false
    → strip_bounds corrent target i begin (front ++ route)
      ≡ strip_bounds corrent target (i + length front) begin route
unfolding has_address strip_bounds
strip_bounds-append corrent target i begin [] route h k =
    ap (λ j. strip_bounds corrent target j begin route) (omega arith)
strip_bounds-append corrent target i begin (x ∷ front) route h k =
    let shift : (suc i) + length front ≡ i + suc (length front) = omega arith in
    ground (
      arith,
      h,
      k,
      strip_bounds-append corrent target (suc i) begin front route (ground (arith, h))
          (ground (arith, k)),
      ap (λ j. strip_bounds corrent target j begin route) shift,
    )

unequal_sym : (a b : HostAddress) → equal a b ≡ false → equal b a ≡ false
unfolding equal
unequal_sym a b h = ground (arith, h)

-- Of a route on which the sender's address stands before the node's own, each of them once, `strip`
-- takes out the sender's and what is between the two.
pub strip-route :
    (sender own : HostAddress) (front between behind : List HostAddress) (t : Transport)
    → t.route ≡ front ++ (sender ∷ (between ++ (own ∷ behind)))
    → has_address sender front ≡ false
    → has_address own front ≡ false
    → has_address sender between ≡ false
    → has_address own between ≡ false
    → equal own sender ≡ false
    → strip sender own t ≡ (record t { route = front ++ (own ∷ behind) }, true)
unfolding strip erase strip_bounds
strip-route sender own front between behind t e fs fo bs bo n =
    let first =
      strip_bounds-append sender own 0 none front (sender ∷ (between ++ (own ∷ behind))) fs fo in
    let second =
      strip_bounds-append sender own (suc (0 + length front)) (some (0 + length front)) between
        (own ∷ behind) bs bo in
    let place = suc (0 + length front) + length between in
    let same = (equal_iff own own).1 refl in
    let here = (equal_iff sender sender).1 refl in
    let third : strip_bounds sender own (0 + length front) none
          (sender ∷ (between ++ (own ∷ behind)))
        ≡ strip_bounds sender own (suc (0 + length front)) (some (0 + length front))
            (between ++ (own ∷ behind)) =
      ground (arith, n, here) in
    let fourth : strip_bounds sender own place (some (0 + length front)) (own ∷ behind)
        ≡ (some (length front), some place) =
      ground (arith, same, unequal_sym own sender n) in
    let bounds : strip_bounds sender own 0 none t.route ≡ (some (length front), some place) =
      ap (λ r. strip_bounds sender own 0 none r) e ∙ first ∙ third ∙ second ∙ fourth in
    let split : t.route ≡ (front ++ (sender ∷ between)) ++ (own ∷ behind) =
      e ∙ sym (append_assoc front (sender ∷ between) (own ∷ behind)) in
    let size : length (front ++ (sender ∷ between)) ≡ place =
      omega (arith, length-append front (sender ∷ between)) in
    let left : take (length front) t.route ≡ front =
      ap (take (length front)) e
      ∙ take-append (length front) front (sender ∷ (between ++ (own ∷ behind))) refl in
    let right : drop place t.route ≡ own ∷ behind =
      ap (drop place) split ∙ drop-append place (front ++ (sender ∷ between)) (own ∷ behind) size in
    ground (arith, bounds, left, right)
