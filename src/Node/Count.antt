-- ===== src/Node/Count.antt =====
-- The counts of peers and the two descriptions of the node's work state.
use qt_network_protocol.Prelude.{◌≤◌, ◌≡◌, refl, Bool, true, [], ◌∷◌, length, arith, Dict}
use qt_network_protocol.HostAddress.{HostAddress}
use qt_network_protocol.NodeInfo
use qt_network_protocol.NodeInfo.{NodeInfo, confirmed, status_eq}
use qt_network_protocol.NodeInfo.Status.{IsCoherent}
use qt_network_protocol.Node.State.{
  Node, count_if, keys_if, connections_count, confirmend_count, connections_list,
  get_work_state_string, get_work_state, work_state_string, overload,
}

-- Every peer of a table has the property.
abbrev pub AllInfos : (NodeInfo → Type 0) → Dict HostAddress NodeInfo → Type 0
AllInfos P [] = Unit {0}
AllInfos P ((a, i) ∷ d) = P i × AllInfos P d

-- A count of peers that meet a stronger test is not larger.
count_if_mono :
    (p q : NodeInfo → Bool) (d : Dict HostAddress NodeInfo)
    → AllInfos (λ i. p i ≡ true → q i ≡ true) d
    → count_if p d ≤ count_if q d
unfolding count_if
count_if_mono p q [] h = omega arith
count_if_mono p q ((a, i) ∷ d) h = ground (arith, h.0, count_if_mono p q d h.1)

length-keys_if :
    (p : NodeInfo → Bool) (d : Dict HostAddress NodeInfo) → length (keys_if p d) ≡ count_if p d
unfolding keys_if count_if
length-keys_if p [] = refl
length-keys_if p ((a, i) ∷ d) = ground (arith, length-keys_if p d)

confirmed-is_connected :
    (i : NodeInfo)
    → IsCoherent i
    → status_eq i.status confirmed ≡ true
    → NodeInfo.is_connected i ≡ true
unfolding NodeInfo.is_connected NodeInfo.is_valid
confirmed-is_connected i c h = ground (arith, c.no_socket)

confirmed_are_connected :
    (d : Dict HostAddress NodeInfo)
    → AllInfos IsCoherent d
    → AllInfos (λ i. status_eq i.status confirmed ≡ true → NodeInfo.is_connected i ≡ true) d
confirmed_are_connected [] c = tt
confirmed_are_connected ((a, i) ∷ d) c =
    (confirmed-is_connected i c.0, confirmed_are_connected d c.1)

-- In a table of coherent peers no more peers are confirmed than are connected.
pub confirmend_count-le-connections_count :
    (n : Node) → AllInfos IsCoherent n.connections → confirmend_count n ≤ connections_count n
unfolding confirmend_count connections_count
confirmend_count-le-connections_count n c =
    count_if_mono (λ i. status_eq i.status confirmed) NodeInfo.is_connected n.connections
      (confirmed_are_connected n.connections c)

all_true :
    (p : NodeInfo → Bool) (d : Dict HostAddress NodeInfo)
    → AllInfos (λ i. p i ≡ true → true ≡ true) d
all_true p [] = tt
all_true p ((a, i) ∷ d) = (λ _. refl, all_true p d)

-- The work state that a node hands out says `overload` whenever the node itself does. (It counts the
-- peers that the node knows, the node only those that are connected.)
pub overload-work_state :
    (n : Node)
    → get_work_state_string n ≡ overload
    → work_state_string (get_work_state n) ≡ overload
unfolding get_work_state_string work_state_string get_work_state connections_count connections_list
overload-work_state n h = ground (
  arith,
  count_if_mono NodeInfo.is_connected (λ _. true) n.connections
      (all_true NodeInfo.is_connected n.connections),
  length-keys_if (λ _. true) n.connections,
)
