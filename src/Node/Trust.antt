-- ===== src/Node/Trust.antt =====
-- Trust and bans as the node handles them.
use qt_network_protocol.Prelude.{
  ℕ, zero, suc, ◌<◌, ◌≤◌, ◌*◌, ◌≡◌, true, false, Option, none, some, if◌then◌else◌, lookup, ◌⊎◌,
  lookup-insert, arith, ℤ, pos, ◌+ℤ◌, ◌≤ℤ◌, ◌<ℤ◌, Option-cases, inl, inr, ◌-◌, ◌∙◌, dec_lt,
}
use qt_network_protocol.HostAddress.{HostAddress, equal, equal_iff, host_address_eq}
use qt_network_protocol.NodeInfo
use qt_network_protocol.NodeInfo.{NodeInfo}
use qt_network_protocol.NodeInfo.Trust.{set_trust_lem, ban-un_ban, sct-ban}
use qt_network_protocol.Node.State.{Node, update_info, ban, un_ban, change_trust, request_error}

abbrev pub map_info : (NodeInfo → NodeInfo) → Option NodeInfo → Option NodeInfo
map_info f none = none
map_info f (some i) = some (f i)

-- What stands under a key after an update of the peer under another, or the same, key.
pub lookup-update_info :
    (id key : HostAddress) (f : NodeInfo → NodeInfo) (n : Node)
    → lookup key (update_info id f n).connections
      ≡ (if equal id key then map_info f (lookup key n.connections) else lookup key n.connections)
unfolding update_info
lookup-update_info id key f n = elim (Option-cases (lookup id n.connections)) [
  | inl missing ↦ ground (arith, missing, equal_iff id key)
  | inr (j, found) ↦
      ground (arith, found, lookup-insert id key (f j) n.connections, equal_iff id key)
]

-- changeTrust on a peer that the node knows. With a level of at least Undefined or at most Baned it
-- changes nothing and returns false. Otherwise it returns true, the peer takes the sum as its new
-- level by setTrust, and what stands under any other key is as before.
pub change_trust_lem :
    (id key : HostAddress) (diff : ℤ) (n : Node) (i : NodeInfo)
    → lookup id n.connections ≡ some i
    → ((pos 255 ≤ℤ i.trust) ⊎ (i.trust ≤ℤ pos 0) → change_trust id diff n ≡ (n, false))
      × (i.trust <ℤ pos 255
          → pos 0 <ℤ i.trust
          → ((change_trust id diff n).1 ≡ true)
            × (lookup key (change_trust id diff n).0.connections ≡ (
                if equal id key
                then some (NodeInfo.set_trust (i.trust +ℤ diff) i)
                else lookup key n.connections)))
unfolding change_trust
change_trust_lem id key diff n i e =
    ground
      (arith, lookup-update_info id key (NodeInfo.set_trust (i.trust +ℤ diff)) n, equal_iff id key)

-- What stands under the key itself after one REQUEST_ERROR.
punished :
    (id : HostAddress) (n : Node) (i : NodeInfo)
    → lookup id n.connections ≡ some i
    → i.trust <ℤ pos 255
    → pos 0 <ℤ i.trust
    → lookup id (change_trust id request_error n).0.connections
      ≡ some (NodeInfo.set_trust (i.trust +ℤ request_error) i)
punished id n i e h k =
    ground (arith, (change_trust_lem id id request_error n i e).1 h k, equal_iff id id)

-- As many REQUEST_ERRORs in a row as a count says.
unfoldable pub punish : ℕ → HostAddress → Node → Node
punish zero id n = n
punish (suc k) id n = punish k id (change_trust id request_error n).0

-- A banned peer without a socket under the key.
pub record IsExpelled (id : HostAddress) (n : Node) : Type 0 where
  pub info : NodeInfo
  pub known : lookup id n.connections ≡ some info
  pub banned : NodeInfo.is_banned info ≡ true
  pub no_socket : info.sct ≡ none

-- A banned peer is punished no further.
change_trust_banned :
    (id : HostAddress) (n : Node) → IsExpelled id n → change_trust id request_error n ≡ (n, false)
unfolding NodeInfo.is_banned
change_trust_banned id n x =
    (change_trust_lem id id request_error n x.info x.known).0 (inr (ground (arith, x.banned)))

punish-IsExpelled :
    (k : ℕ) (id : HostAddress) (n : Node) → IsExpelled id n → IsExpelled id (punish k id n)
unfolding punish
punish-IsExpelled zero id n x = x
punish-IsExpelled (suc k) id n x = rw (change_trust_banned id n x) (punish-IsExpelled k id n x)

-- The level after one REQUEST_ERROR at a positive level.
lowered : ℕ → ℤ
lowered t = pos t +ℤ request_error

lowered_last : (t : ℕ) → t ≤ 5 → lowered t ≤ℤ pos 0
unfolding lowered ◌+ℤ◌
lowered_last t h = ground arith

lowered_more : (t : ℕ) → 5 < t → lowered t ≡ pos (t - 5)
unfolding lowered ◌+ℤ◌
lowered_more t h = ground arith

module _ (t : ℕ) (id : HostAddress) (n : Node) (i : NodeInfo) (e : lookup id n.connections ≡ some i)
    (p : i.trust ≡ pos t) (z : 0 < t) (h : t < 255) where
  punished_level :
      lookup id (change_trust id request_error n).0.connections
      ≡ some (NodeInfo.set_trust (lowered t) i)
  unfolding lowered
  punished_level = rw (← p) (punished id n i e (rw p (omega arith)) (rw p (omega arith)))

  punished_last : t ≤ 5 → IsExpelled id (change_trust id request_error n).0
  punished_last l =
      let after = set_trust_lem (lowered t) i in
      let gone = after.1 (lowered_last t l) in
      record {
        info = NodeInfo.set_trust (lowered t) i;
        known = punished_level;
        banned = gone.0;
        no_socket = gone.1;
      }

-- A peer of a positive trust level t below 255 is banned and has lost its socket after any number of
-- REQUEST_ERRORs that is at least t / 5, rounded up.
pub punish_bans :
    (k t : ℕ) (id : HostAddress) (n : Node) (i : NodeInfo)
    → lookup id n.connections ≡ some i
    → i.trust ≡ pos t
    → 0 < t
    → t < 255
    → t ≤ 5 * k
    → IsExpelled id (punish k id n)
unfolding punish
punish_bans zero t id n i e p z h b = absurd (omega arith)
punish_bans (suc k) t id n i e p z h b = elim (dec_lt 5 t) [
  | yes more ↦
      punish_bans k (t - 5) id (change_trust id request_error n).0
        (NodeInfo.set_trust (lowered t) i) (punished_level t id n i e p z h)
        ((set_trust_lem (lowered t) i).0 ∙ lowered_more t more) (omega arith) (omega arith)
        (omega arith)
  | no last ↦
      punish-IsExpelled k id (change_trust id request_error n).0
        (punished_last t id n i e p z h (omega arith))
]

un_ban_same : (id : HostAddress) (n : Node) → un_ban id n ≡ n
unfolding un_ban
un_ban_same id n = ground arith

-- A ban cannot be lifted by unBan: after ban and unBan, a peer that the node knows is still banned.
pub un_ban-ban :
    (id : HostAddress) (n : Node) (i : NodeInfo)
    → lookup id n.connections ≡ some i
    → IsExpelled id (un_ban id (ban id n))
unfolding ban
un_ban-ban id n i e = rw (un_ban_same id (ban id n)) (record {
  info = NodeInfo.ban i;
  known = banned_known;
  banned = (ban-un_ban i).0;
  no_socket = sct-ban i;
})
  where
    banned_known : lookup id (ban id n).connections ≡ some (NodeInfo.ban i)
    banned_known = ground (arith, lookup-update_info id id NodeInfo.ban n, equal_iff id id)
