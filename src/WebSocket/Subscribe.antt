-- ===== src/WebSocket/Subscribe.antt =====
-- databasenode.cpp: parsePackage and workWithSubscribe, the requests for subscriptions.
--
-- The result of AbstractNode::parsePackage is an argument, as is the hash that sendData returns.
use qt_network_protocol.Prelude.{
  ℕ, ◌≡◌, List, [], ◌∷◌, Bool, true, false, ◌&&◌, ◌||◌, not, Dict, insert, nat_eq, IdSet,
  set_insert, set_remove, member, if◌then◌else◌, ◌==◌, ==_iff, arith, lookup-insert,
  member-set_insert, member-set_remove,
}
use qt_network_protocol.Node.Parse.{ParserResult, error, not_processed, processed}
use qt_network_protocol.WebSocket.{WebSocketController, set_at, subscribe, unsubscribe, list}

-- WebSocketRequest; a number beyond the enumerators acts as `invalied`.
pub data WebSocketRequest : Type 0 where
  invalied subscribe_item unsubscribe_item subscribe_list : WebSocketRequest

-- What a call gives: the controller, the ids sent as WebSocketSubscriptions, the calls of
-- memberSubsribed (true) and memberUnsubsribed, and whether it was done.
pub record Worked : Type 0 where
  pub controller : WebSocketController
  pub sent : List IdSet
  pub told : List (Bool × ℕ × ℕ)
  pub done : Bool

-- The package, if it is a WebSocket: whether it is valid, its command and its id.
pub data NodePackage : Type 0 where
  web_socket : Bool → WebSocketRequest → ℕ → NodePackage
  other_package : NodePackage

set_at-insert : (k : ℕ) (v : IdSet) (d : Dict ℕ IdSet) → set_at k (insert k v d) ≡ v
unfolding set_at
set_at-insert k v d = ground (arith, lookup-insert k k v d, ==_iff k k)

module _ (sends : IdSet → ℕ) (has_db : Bool) where
  -- DataBaseNode::workWithSubscribe
  unfoldable pub work_with_subscribe : WebSocketRequest → ℕ → ℕ → WebSocketController → Worked
  work_with_subscribe request id member_id c =
      let failed : Worked = record { controller = c; sent = []; told = []; done = false } in
      if not has_db then failed else elim request [
        | subscribe_item ↦ record {
          controller = subscribe member_id id c;
          sent = [];
          told = (true, member_id, id) ∷ [];
          done = true;
        }
        | unsubscribe_item ↦ record {
          controller = unsubscribe member_id id c;
          sent = [];
          told = (false, member_id, id) ∷ [];
          done = true;
        }
        | subscribe_list ↦
            let (c', ids) = list member_id c in
            record { controller = c'; sent = ids ∷ []; told = []; done = not (sends ids == 0) }
        | invalied ↦ failed
      ]

  -- DataBaseNode::parsePackage; each error but the parent's calls badRequest before it returns.
  unfoldable pub parse_package :
      ParserResult → NodePackage → ℕ → WebSocketController → Worked × ParserResult
  parse_package not_processed (web_socket valid request id) member_id c =
      let worked = work_with_subscribe request id member_id c in
      if not valid
      then (record { controller = c; sent = []; told = []; done = false }, error)
      else (worked, (if not worked.done then error else processed))
  parse_package not_processed other_package member_id c =
      (record { controller = c; sent = []; told = []; done = false }, not_processed)
  parse_package error pkg member_id c =
      (record { controller = c; sent = []; told = []; done = false }, error)
  parse_package processed pkg member_id c =
      (record { controller = c; sent = []; told = []; done = false }, processed)

  -- The list that a member is sent after it subscribed to an item, or left it, has an item exactly if
  -- it is that one, or is not, or if the list had it before; and the lists of the items agree with
  -- it.
  pub parse_package-subscribe_list :
      (id item member_id : ℕ) (c : WebSocketController)
      → has_db ≡ true
      → let asks = λ (request : WebSocketRequest) (c' : WebSocketController).
        (parse_package not_processed (web_socket true request id) member_id c').0 in
        let before = set_at member_id c.items in
        let joined = set_at member_id (asks subscribe_item c).controller.items in
        let left = set_at member_id (asks unsubscribe_item c).controller.items in
        ((asks subscribe_list (asks subscribe_item c).controller).sent ≡ joined ∷ [])
        × (member item joined ≡ (id == item || member item before))
        × ((asks subscribe_list (asks unsubscribe_item c).controller).sent ≡ left ∷ [])
        × (member item left ≡ (not (id == item) && member item before))
        × (member member_id (set_at id (asks subscribe_item c).controller.subscribs) ≡ true)
        × (member member_id (set_at id (asks unsubscribe_item c).controller.subscribs) ≡ false)
  unfolding parse_package work_with_subscribe subscribe unsubscribe list
  parse_package-subscribe_list id item member_id c db =
      let items = set_at member_id c.items in
      let subscribers = set_at id c.subscribs in
      let more = set_at-insert member_id (set_insert id items) c.items in
      let fewer = set_at-insert member_id (set_remove id items) c.items in
      let added = set_at-insert id (set_insert member_id subscribers) c.subscribs in
      let dropped = set_at-insert id (set_remove member_id subscribers) c.subscribs in
      (
        ground (arith, db),
        ground (arith, db, more, member-set_insert id item items),
        ground (arith, db),
        ground (arith, db, fewer, member-set_remove id item items),
        ground (
          arith,
          db,
          added,
          member-set_insert member_id member_id subscribers,
          ==_iff member_id member_id,
        ),
        ground (
          arith,
          db,
          dropped,
          member-set_remove member_id member_id subscribers,
          ==_iff member_id member_id,
        ),
      )
