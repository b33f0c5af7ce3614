-- ===== src/HostAddress.antt =====
-- Heart/AbstractSpace/hostaddress.h and hostaddress.cpp: an IP address with a port.
--
-- A QHostAddress is a number that identifies it, 0 for the null address: the sources only compare
-- it and test it for null.
pub mod Equality
use qt_network_protocol.Prelude.{ℕ, ◌%◌, ◌^◌, ◌≡◌, ◌↔◌, Bool, true, ◌&&◌, not, ◌==◌, Eq, arith}

pub record HostAddress : Type 0 where
  pub ip : ℕ
  pub port : ℕ

abbrev pub null_address : HostAddress
null_address = record { ip = 0; port = 0 }

-- QHostAddress::isNull
unfoldable pub is_null : HostAddress → Bool
is_null a = a.ip == 0

-- HostAddress::HostAddress(const QHostAddress &, int): the port is an unsigned short.
unfoldable pub host_address : ℕ → ℕ → HostAddress
host_address ip port = record { ip = ip; port = port % 2 ^ 16 }

-- HostAddress::isValid
unfoldable pub address_is_valid : HostAddress → Bool
unfolding is_null
address_is_valid a = not (is_null a) && not (a.port == 0)

-- operator ==
unfoldable pub equal : HostAddress → HostAddress → Bool
equal left right = left.ip == right.ip && left.port == right.port

pub equal_iff : (a b : HostAddress) → (equal a b ≡ true) ↔ (a ≡ b)
unfolding equal
equal_iff a b = ground arith

-- The key of the node's QHash.
instance abbrev pub host_address_eq : Eq HostAddress
host_address_eq = record { beq = equal; beq_iff = equal_iff }

-- operator !=
unfoldable pub not_equal : HostAddress → HostAddress → Bool
not_equal left right = not (left.ip == right.ip) && not (left.port == right.port)
