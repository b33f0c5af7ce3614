-- ===== src/NodeInfo/TrustNode.antt =====
-- Heart/AbstractSpace/abstractnodeinfo.h, enum class TrustNode: the levels of trust.
use qt_network_protocol.Prelude.{ℤ, pos}

abbrev pub undefined : ℤ
undefined = pos 0xff

abbrev pub default : ℤ
default = pos 100

abbrev pub restore : ℤ
restore = pos 20

abbrev pub baned : ℤ
baned = pos 0
