-- ===== src/Tests/SocketTests.antt =====
-- The subscriptions at concrete inputs.
use qt_network_protocol.Prelude.{nat_eq, ℕ, ◌≡◌, [], ◌∷◌, true, false}
use qt_network_protocol.WebSocket.{WebSocketController, Item}
use qt_network_protocol.WebSocket.Matched.{
  subscribes, unsubscribes, lists, answer_all, last_wins, no_subscriptions, is_subscribed, has_item,
  answer_all-last_wins,
}
use qt_network_protocol.WebSocket.Node.{Server}
use qt_network_protocol.Tests.CacheSamples.{data_base_node}

answer_all-last_wins_example :
    let requests = subscribes 1 8 ∷ subscribes 2 8 ∷ lists 3 ∷ unsubscribes 1 8 ∷ [] in
    (is_subscribed 2 8 (answer_all requests no_subscriptions) ≡ last_wins requests 2 8 false)
    × (has_item 2 8 (answer_all requests no_subscriptions) ≡ last_wins requests 2 8 false)
answer_all-last_wins_example =
    answer_all-last_wins (subscribes 1 8 ∷ subscribes 2 8 ∷ lists 3 ∷ unsubscribes 1 8 ∷ []) 2 8

abbrev changed_item : Item
changed_item = record { subscribe_id = 8; is_db_object = true }

abbrev subscribed : WebSocketController
subscribed = record { subscribs = (8, 1 ∷ 2 ∷ []) ∷ []; items = (1, 8 ∷ []) ∷ (2, 8 ∷ []) ∷ [] }

-- Two members are told of a change of thing 5; none can be reached.
abbrev telling : Server ℕ
telling = record { node = data_base_node; connections = 0 }
