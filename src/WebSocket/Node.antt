-- ===== src/WebSocket/Node.antt =====
-- databasenode.cpp: the database node as the host of the controller of subscriptions.
--
-- `address_of` is the address of an item that is a DBObject, and `send_update` the sending to a member
-- (DataBaseNode::sendData by id), which leaves the database alone.
use qt_network_protocol.Prelude.{ℕ, List, [], ◌∷◌, arith}
use qt_network_protocol.Database.Object.{DbAddress, Hashes}
use qt_network_protocol.Cache.{Sql}
use qt_network_protocol.Database.Permission.{DataBaseNode, read, is_allowed, check_permission}
use qt_network_protocol.Database.Checked.{
  ReadsOnly, ReadsOnly-refl, ReadsOnly-trans, check_permission-ReadsOnly,
}
use qt_network_protocol.WebSocket.{
  WebSocketController, Item, Host, set_at, notify, foreach_subscribers, handle_item_changed,
}
use qt_network_protocol.WebSocket

-- The members' connections are the state that `send_update` changes.
pub record Server (M : Type 0) : Type 0 where
  pub node : DataBaseNode
  pub connections : M

module _ {M : Type 0} (sql : Sql) (hashes : Hashes) (address_of : Item → DbAddress)
    (send_update : Item → ℕ → M → M × ℕ) where
  abbrev pub node_host : Host (Server M)
  node_host = record {
    may_read = λ subscriber item s.
        let (node, answer) = check_permission sql hashes subscriber (address_of item) read s.node in
        (record s { node = node }, is_allowed answer);
    send = λ item subscriber s.
        let (connections, hash) = send_update item subscriber s.connections in
        (record s { connections = connections }, hash);
  }

  notify-ReadsOnly :
      (item : Item) (subscriber : ℕ) (s : Server M) (c : WebSocketController)
      → ReadsOnly s.node.db (notify node_host item subscriber (s, c)).0.node.db
  unfolding notify WebSocket.is_allowed
  notify-ReadsOnly item subscriber s c =
      let k = check_permission-ReadsOnly sql hashes subscriber (address_of item) read s.node in
      record {
        calls = ground (arith, k.calls);
        changes = ground (arith, k.changes);
        signals = ground (arith, k.signals);
      }

  foreach_subscribers-ReadsOnly :
      (item : Item) (subscribers : List ℕ) (s : Server M) (c : WebSocketController)
      → ReadsOnly s.node.db (foreach_subscribers node_host item subscribers (s, c)).0.node.db
  unfolding foreach_subscribers
  foreach_subscribers-ReadsOnly item [] s c = ReadsOnly-refl s.node.db
  foreach_subscribers-ReadsOnly item (t ∷ ts) s c =
      let (s', c') = notify node_host item t (s, c) in
      ReadsOnly-trans s.node.db s'.node.db
        (foreach_subscribers node_host item ts (s', c')).0.node.db (notify-ReadsOnly item t s c)
        (foreach_subscribers-ReadsOnly item ts s' c')

  -- To tell the subscribers of a change, with a permission check for each of them, neither calls the
  -- database's writer, nor queues a change, nor emits a signal that would set off another round.
  pub handle_item_changed-ReadsOnly :
      (item : Item) (s : Server M) (c : WebSocketController)
      → ReadsOnly s.node.db (handle_item_changed node_host item (s, c)).0.node.db
  unfolding handle_item_changed
  handle_item_changed-ReadsOnly item s c =
      foreach_subscribers-ReadsOnly item (set_at item.subscribe_id c.subscribs) s c
