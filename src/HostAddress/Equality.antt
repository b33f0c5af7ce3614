-- ===== src/HostAddress/Equality.antt =====
-- operator != of HostAddress against operator ==.
use qt_network_protocol.Prelude.{◌≡◌, ◌≢◌, ◌⊎◌, false, arith}
use qt_network_protocol.HostAddress.{HostAddress, equal, not_equal}

-- operator != is not the negation of operator ==: on two addresses that share the IP or the port,
-- and are not equal, both are false.
pub equal-not_equal :
    (a b : HostAddress)
    → a ≢ b
    → (a.ip ≡ b.ip) ⊎ (a.port ≡ b.port)
    → (equal a b ≡ false) × (not_equal a b ≡ false)
unfolding equal not_equal
equal-not_equal a b n s = ground arith
