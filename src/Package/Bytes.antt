-- ===== src/Package/Bytes.antt =====
-- The byte form of a package: fixed header length, and what is written is read back.
use qt_network_protocol.Prelude.{
  ℕ, ◌+◌, ◌≡◌, refl, ap, sym, ◌∙◌, List, ◌++◌, some, length, take, drop, mid, length-append,
  take-append, drop-append, append_assoc, arith,
}
use qt_network_protocol.Package.{
  Header, HeaderInRange, Package, header_size, header_bytes, header_of_bytes, to_bytes, from_stream,
}

pub length-header_bytes : (h : Header) → length (header_bytes h) ≡ header_size
unfolding header_bytes
length-header_bytes h = refl

pub length-to_bytes : (p : Package) → length (to_bytes p) ≡ header_size + length p.bytes
unfolding to_bytes
length-to_bytes p =
    omega (arith, length-append (header_bytes p.hdr) p.bytes, length-header_bytes p.hdr)

-- The memory image of a header whose fields fit their widths is read back as that header.
pub header_of_bytes-header_bytes :
    (h : Header) → HeaderInRange h → header_of_bytes (header_bytes h) ≡ h
unfolding header_of_bytes header_bytes
header_of_bytes-header_bytes h r = ground arith

mid-body :
    (n : ℕ) (hb body rest : List ℕ)
    → length hb ≡ header_size
    → n ≡ length body
    → mid (hb ++ (body ++ rest)) header_size n ≡ body
mid-body n hb body rest e k =
    ap (take n) (drop-append header_size hb (body ++ rest) e) ∙ take-append n body rest (sym k)

drop-body :
    (n : ℕ) (hb body rest : List ℕ)
    → length hb ≡ header_size
    → n ≡ length body
    → drop (header_size + n) (hb ++ (body ++ rest)) ≡ rest
drop-body n hb body rest e k =
    rw (← append_assoc hb body rest)
      (drop-append (header_size + n) (hb ++ body) rest (omega (arith, length-append hb body)))

-- Reading from a header image, its data and a rest.
from_stream-append :
    (hb body rest : List ℕ) (h : Header)
    → length hb ≡ header_size
    → header_of_bytes hb ≡ h
    → h.size ≡ length body
    → from_stream (hb ++ (body ++ rest)) ≡ some (record { hdr = h; bytes = body }, rest)
unfolding from_stream
from_stream-append hb body rest h e d k = ground (
  arith,
  take-append header_size hb (body ++ rest) e,
  mid-body h.size hb body rest e k,
  drop-body h.size hb body rest e k,
  length-append hb (body ++ rest),
  length-append body rest,
)

-- A package whose header fits its widths and states the length of its data is read back from the
-- front of any stream, with the rest of the stream left over.
pub from_stream-to_bytes :
    (p : Package) (rest : List ℕ)
    → HeaderInRange p.hdr
    → p.hdr.size ≡ length p.bytes
    → from_stream (to_bytes p ++ rest) ≡ some (p, rest)
unfolding to_bytes
from_stream-to_bytes p rest r fits = rw (append_assoc (header_bytes p.hdr) p.bytes rest) (
    from_stream-append (header_bytes p.hdr) p.bytes rest p.hdr (length-header_bytes p.hdr)
      (header_of_bytes-header_bytes p.hdr r) fits)
