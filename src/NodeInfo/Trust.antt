-- ===== src/NodeInfo/Trust.antt =====
-- Trust and bans of AbstractNodeInfo.
use qt_network_protocol.Prelude.{◌≡◌, true, false, none, arith, ℤ, pos, ◌≤ℤ◌}
use qt_network_protocol.NodeInfo.{
  NodeInfo, remove_socket, set_status, set_trust, is_banned, ban, un_ban, is_connected, is_valid,
}

-- setTrust stores the level; with a level below 1 the peer is banned, and its socket is removed, and
-- with any other level the peer is not banned and keeps its socket.
pub set_trust_lem :
    (t : ℤ) (i : NodeInfo)
    → ((set_trust t i).trust ≡ t)
      × (t ≤ℤ pos 0 → (is_banned (set_trust t i) ≡ true) × ((set_trust t i).sct ≡ none))
      × (pos 1 ≤ℤ t → (is_banned (set_trust t i) ≡ false) × ((set_trust t i).sct ≡ i.sct))
unfolding set_trust remove_socket set_status is_banned
set_trust_lem t i = ground arith

-- A banned peer is not connected, whatever it was before, and unBan lifts the ban but brings no
-- socket back.
pub ban-un_ban :
    (i : NodeInfo)
    → (is_banned (ban i) ≡ true)
      × (is_connected (ban i) ≡ false)
      × (is_banned (un_ban (ban i)) ≡ false)
      × (is_connected (un_ban (ban i)) ≡ false)
unfolding ban un_ban remove_socket set_status is_banned is_connected is_valid
ban-un_ban i = ground arith

pub sct-ban : (i : NodeInfo) → (ban i).sct ≡ none
unfolding ban remove_socket set_status
sct-ban i = ground arith
