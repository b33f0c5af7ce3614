-- ===== src/Transport.antt =====
-- Heart/NetworkSpace/packages/transportdata.h and transportdata.cpp: the package that carries another
-- one along a route of addresses to a node.
--
-- A NodeId is a number that identifies it, 0 for the empty one. The serialisation is not modelled.
pub mod Strip
use qt_network_protocol.Prelude.{
  ℕ, suc, ◌≡◌, List, [], ◌∷◌, ◌++◌, Bool, true, false, ◌&&◌, ◌||◌, not, Option, none, some, length,
  take, drop, if◌then◌else◌, ◌==◌,
}
use qt_network_protocol.HostAddress.{HostAddress, equal}
use qt_network_protocol.Package.{Package, is_valid}

-- TransportData, with AbstractData::cmd as a member
pub record Transport : Type 0 where
  pub cmd : ℕ
  pub payload : Package
  pub target_address : ℕ
  pub route : List HostAddress
  pub package_id : ℕ
  pub sender_id : ℕ
  pub route_is_complete : Bool

-- TransportData::completeRoute
unfoldable pub complete_route : Bool → Transport → Transport
complete_route complete t = record t { route_is_complete = complete }

-- QSet<HostAddress>::contains and QList::indexOf, none for −1
unfoldable pub has_address : HostAddress → List HostAddress → Bool
has_address a [] = false
has_address a (x ∷ xs) = equal a x || has_address a xs

unfoldable pub index_of : HostAddress → List HostAddress → Option ℕ
index_of a [] = none
index_of a (x ∷ xs) =
    let rest = index_of a xs in
    if equal a x then some 0 else elim rest [ none ↦ none | some i ↦ some (suc i) ]

-- The loop of setRoute over the addresses seen before.
unfoldable pub repeats : List HostAddress → List HostAddress → Bool
repeats test [] = false
repeats test (address ∷ route) = has_address address test || repeats (address ∷ test) route

-- TransportData::setRoute
unfoldable pub set_route : List HostAddress → Transport → Transport × Bool
set_route route t = if repeats [] route then (t, false) else (
  complete_route (not (length route == 0)) (record t { route = route }),
  not (length route == 0),
)

-- TransportData::addNodeToRoute
unfoldable pub add_node_to_route : HostAddress → Transport → Transport
add_node_to_route node t = record t { route = t.route ++ (node ∷ []) }

-- The loop of strip from the place `i` on: the places `begin` and `end`, where they are found.
unfoldable pub strip_bounds :
    HostAddress → HostAddress → ℕ → Option ℕ → List HostAddress → Option ℕ × Option ℕ
strip_bounds corrent target i begin [] = (begin, none)
strip_bounds corrent target i begin (it ∷ route) =
    let begin' = if equal corrent it then some i else begin in
    let rest = strip_bounds corrent target (suc i) begin' route in
    if equal target it then (begin', some i) else rest

-- QList::erase from `begin` to `end`
unfoldable pub erase : ℕ → ℕ → List HostAddress → List HostAddress
erase begin end route = take begin route ++ drop end route

-- TransportData::strip
unfoldable pub strip : HostAddress → HostAddress → Transport → Transport × Bool
strip corrent_address availabel_target t =
    let (begin, end) = strip_bounds corrent_address availabel_target 0 none t.route in
    elim begin [
      | none ↦ (t, false)
      | some b ↦ elim end [
        | none ↦ (t, false)
        | some e ↦ (record t { route = erase b e t.route }, true)
      ]
    ]

module _ (q_hash : List ℕ → ℕ) where
  -- TransportData::isValid
  unfoldable pub transport_is_valid : Transport → Bool
  transport_is_valid t =
      not (t.cmd == 0) && (is_valid q_hash t.payload && not (t.target_address == 0))

  -- TransportData::isHaveRoute
  unfoldable pub is_have_route : Transport → Bool
  is_have_route t = transport_is_valid t && (not (length t.route == 0) && t.route_is_complete)
