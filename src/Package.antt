-- ===== src/Package.antt =====
-- Heart/AbstractSpace/header.h, header.cpp, package.h and package.cpp: the header of a network
-- package, the package, when it is valid, and its byte form.
--
-- A QByteArray is a list of bytes. `Header` is a packed struct of 12 bytes that the sources copy by
-- memcpy and raw writes; its image here is that of a little-endian machine with a 16-bit short and
-- a 32-bit int. `q_hash` stands for Qt's qHash(QByteArray).
pub mod Bytes
pub mod Valid
use qt_network_protocol.Prelude.{
  ℕ, ◌+◌, ◌*◌, ◌/◌, ◌%◌, ◌^◌, ◌<◌, List, [], ◌∷◌, ◌++◌, Bool, true, false, ◌&&◌, not, Option, none,
  some, length, get_or, mid, drop, leb, ltb, ◌==◌, if◌then◌else◌,
}

pub record Header : Type 0 where
  pub size : ℕ
  pub command : ℕ
  pub hash : ℕ
  pub trigger_hash : ℕ

-- Header::isValid
unfoldable pub header_is_valid : Header → Bool
header_is_valid h = not (h.command == 0) && (not (h.size == 0) && not (h.hash == 0))

-- Header::reset
abbrev pub header_reset : Header
header_reset = record { size = 0; command = 0; hash = 0; trigger_hash = 0 }

-- sizeof(Header)
abbrev pub header_size : ℕ
header_size = 12

-- The field widths of the struct.
pub record HeaderInRange (h : Header) : Type 0 where
  pub size_bound : h.size < 2 ^ 16
  pub command_bound : h.command < 2 ^ 16
  pub hash_bound : h.hash < 2 ^ 32
  pub trigger_bound : h.trigger_hash < 2 ^ 32

-- The memory image of the struct.
unfoldable pub header_bytes : Header → List ℕ
header_bytes h =
    h.size % 256
    ∷ h.size / 256 % 256
    ∷ h.command % 256
    ∷ h.command / 256 % 256
    ∷ h.hash % 256
    ∷ h.hash / 256 % 256
    ∷ h.hash / 65536 % 256
    ∷ h.hash / 16777216 % 256
    ∷ h.trigger_hash % 256
    ∷ h.trigger_hash / 256 % 256
    ∷ h.trigger_hash / 65536 % 256
    ∷ h.trigger_hash / 16777216 % 256
    ∷ []

abbrev word16 : List ℕ → ℕ → ℕ
word16 bytes at = get_or bytes at 0 + 256 * get_or bytes (at + 1) 0

abbrev word32 : List ℕ → ℕ → ℕ
word32 bytes at =
    get_or bytes at 0
    + 256 * get_or bytes (at + 1) 0
    + 65536 * get_or bytes (at + 2) 0
    + 16777216 * get_or bytes (at + 3) 0

-- `memcpy(&hdr, bytes, sizeof(Header))`
unfoldable pub header_of_bytes : List ℕ → Header
header_of_bytes bytes = record {
  size = word16 bytes 0;
  command = word16 bytes 2;
  hash = word32 bytes 4;
  trigger_hash = word32 bytes 8;
}

-- `bytes` is the field `data` of the source.
pub record Package : Type 0 where
  pub hdr : Header
  pub bytes : List ℕ

-- Package::reset, which also serves the constructor.
abbrev pub reset : Package
reset = record { hdr = header_reset; bytes = [] }

-- Package::toStream, and the `toBytes` that calls it.
unfoldable pub to_bytes : Package → List ℕ
to_bytes p = header_bytes p.hdr ++ p.bytes

-- Package::fromStream: `none` where the stream ends early, since then the source goes on with
-- uninitialised memory.
unfoldable pub from_stream : List ℕ → Option (Package × List ℕ)
from_stream stream =
    let hdr = header_of_bytes (mid stream 0 header_size) in
    if leb (header_size + hdr.size) (length stream)
    then some (
      record { hdr = hdr; bytes = mid stream header_size hdr.size },
      drop (header_size + hdr.size) stream,
    )
    else none

-- The two bytes that begin the data, as memcpy reads them and in reversed order. A missing second
-- byte is the terminating zero of the QByteArray.
abbrev pub leading : List ℕ → ℕ
leading bytes = get_or bytes 0 0 + 256 * get_or bytes 1 0

abbrev pub leading_reversed : List ℕ → ℕ
leading_reversed (x ∷ y ∷ _) = y + 256 * x
leading_reversed bytes = leading bytes

module _ (q_hash : List ℕ → ℕ) where
  -- Package::isValid
  unfoldable pub is_valid : Package → Bool
  unfolding header_is_valid
  is_valid p =
      if not (header_is_valid p.hdr)
      then false
      else if not (p.hdr.size == length p.bytes)
      then false
      else if not (length p.bytes == 0)
          && (not (p.hdr.command == leading p.bytes)
              && not (p.hdr.command == leading_reversed p.bytes))
      then false
      else q_hash p.bytes % 2 ^ 32 == p.hdr.hash
