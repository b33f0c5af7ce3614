-- ===== src/WebSocket.antt =====
-- Heart/DataBaseSpace/websocketcontroller.h and websocketcontroller.cpp: who is subscribed to what.
--
-- A subscriber is a QVariant, which the controller only compares: a number that identifies it. What
-- the controller asks of its node while it tells the subscribers of a change, the permission check
-- and the sending, is the interface `Host`; `Node` fills it in for the database node.
pub mod Matched
pub mod Changed
pub mod Node
pub mod Subscribe
use qt_network_protocol.Prelude.{
  ℕ, List, [], ◌∷◌, Bool, true, false, not, Option, none, some, Dict, nat_eq, lookup, insert, IdSet,
  set_insert, set_remove, if◌then◌else◌, ◌==◌,
}

pub record WebSocketController : Type 0 where
  -- _subscribs: the subscribers of each item
  pub subscribs : Dict ℕ IdSet
  -- _items: the items of each subscriber
  pub items : Dict ℕ IdSet

-- QHash::value, and what operator[] finds: the default is the empty set.
unfoldable pub set_at : ℕ → Dict ℕ IdSet → IdSet
set_at k d = elim (lookup k d) [ none ↦ [] | some s ↦ s ]

-- WebSocketController::subscribePrivate, with the `subscribe` that locks around it
unfoldable pub subscribe : ℕ → ℕ → WebSocketController → WebSocketController
subscribe subscriber item c = record {
  subscribs = insert item (set_insert subscriber (set_at item c.subscribs)) c.subscribs;
  items = insert subscriber (set_insert item (set_at subscriber c.items)) c.items;
}

-- WebSocketController::unsubscribePrivate, with the `unsubscribe` that locks around it
unfoldable pub unsubscribe : ℕ → ℕ → WebSocketController → WebSocketController
unsubscribe subscriber item c = record {
  subscribs = insert item (set_remove subscriber (set_at item c.subscribs)) c.subscribs;
  items = insert subscriber (set_remove item (set_at subscriber c.items)) c.items;
}

-- WebSocketController::list: operator[] makes an entry where there was none.
unfoldable pub list : ℕ → WebSocketController → WebSocketController × IdSet
list subscriber c =
    let found = set_at subscriber c.items in
    (record c { items = insert subscriber found c.items }, found)

-- An ISubscribableData object: its subscribeId, and whether it is a DBObject.
pub record Item : Type 0 where
  pub subscribe_id : ℕ
  pub is_db_object : Bool

-- The node, with a state N: whether checkPermission(subscriber, item, Read) gives Allowed, and what
-- sendData returns.
pub record Host (N : Type 0) : Type 0 where
  pub may_read : ℕ → Item → N → N × Bool
  pub send : Item → ℕ → N → N × ℕ

module _ {N : Type 0} (host : Host N) where
  -- The check in the body of the loop of foreachSubscribers.
  unfoldable pub is_allowed : Item → ℕ → N → N × Bool
  is_allowed item subscriber n =
      if item.is_db_object then host.may_read subscriber item n else (n, true)

  -- The body of the loop, for an item that is an AbstractData.
  unfoldable pub notify : Item → ℕ → N × WebSocketController → N × WebSocketController
  notify item subscriber (n, c) =
      let (checked, allowed) = is_allowed item subscriber n in
      if allowed
      then (let (told, hash) = host.send item subscriber checked in
          if hash == 0 then (told, unsubscribe subscriber item.subscribe_id c) else (told, c))
      else (checked, unsubscribe subscriber item.subscribe_id c)

  -- WebSocketController::foreachSubscribers
  unfoldable pub foreach_subscribers :
      Item → List ℕ → N × WebSocketController → N × WebSocketController
  foreach_subscribers item [] s = s
  foreach_subscribers item (subscriber ∷ rest) s =
      foreach_subscribers item rest (notify item subscriber s)

  -- WebSocketController::handleItemChanged
  unfoldable pub handle_item_changed : Item → N × WebSocketController → N × WebSocketController
  handle_item_changed item (n, c) =
      foreach_subscribers item (set_at item.subscribe_id c.subscribs) (n, c)
