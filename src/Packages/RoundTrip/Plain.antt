-- ===== src/Packages/RoundTrip/Plain.antt =====
-- The packages of the abstract level, of the web sockets and LongPing and BadNodeRequest: written
-- to a stream and read back into an object of the class.
use qt_network_protocol.Prelude.{ℕ, ◌^◌, ◌<◌, ◌≡◌, append_assoc, List, ◌++◌, true}
use qt_network_protocol.Stream.{Stream, StreamLaws, IsInt32}
use qt_network_protocol.Packages.Fields.{Nodes, put_node}
use qt_network_protocol.Packages.ReadBack.{NodesLaws, get_node-put_node}
use qt_network_protocol.Packages.Classes.{
  AbstractData, Ping, LongPing, BadRequest, BadNodeRequest, WebSocket, WebSocketSubscriptions,
  data_cmd,
}
use qt_network_protocol.Packages.Write.{
  put_data, put_ping, put_long_ping, put_bad_request, put_bad_node_request, put_web_socket,
  put_web_socket_subscriptions,
}
use qt_network_protocol.Packages.Read.{
  get_data, get_ping, get_long_ping, get_bad_request, get_bad_node_request, get_web_socket,
  get_web_socket_subscriptions,
}

-- What the stream has of the base, the answer of cmd()
abbrev pub stored : AbstractData → AbstractData
stored d = record d { stored_cmd = data_cmd d }

-- The object's class has the command that is read into, and the command fits a quint16.
abbrev pub Fits : AbstractData → AbstractData → Type 0
Fits fresh d = (fresh.class_cmd ≡ d.class_cmd) × (data_cmd d < 2 ^ 16)

module _ (s : Stream) (laws : StreamLaws s) (nodes : Nodes) (nodes_laws : NodesLaws nodes) where
  pub get_data-put_data :
      (fresh d : AbstractData) (rest : List ℕ)
      → Fits fresh d
      → get_data s nodes fresh (put_data s nodes d ++ rest) ≡ (stored d, rest)
  unfolding get_data put_data
  get_data-put_data fresh d rest h = rw (laws.u16-Reads (data_cmd d) h.1 rest, h.0)

  pub get_ping-put_ping :
      (fresh p : Ping) (rest : List ℕ)
      → Fits fresh.data_ p.data_
      → get_ping s nodes fresh (put_ping s nodes p ++ rest)
        ≡ (record p { data_ = stored p.data_ }, rest)
  unfolding get_ping put_ping
  get_ping-put_ping fresh p rest h = rw (
    append_assoc (put_data s nodes p.data_) (s.boolean.put p.ansver) rest,
    get_data-put_data fresh.data_ p.data_ (s.boolean.put p.ansver ++ rest) h,
    laws.boolean-Reads p.ansver rest,
  )

  pub get_long_ping-put_long_ping :
      (fresh p : LongPing) (rest : List ℕ)
      → Fits fresh.ping.data_ p.ping.data_
      → get_long_ping s nodes fresh (put_long_ping s nodes p ++ rest)
        ≡ (record p { ping = record p.ping { data_ = stored p.ping.data_ } }, rest)
  unfolding get_long_ping put_long_ping
  get_long_ping-put_long_ping fresh p rest h = rw (
    append_assoc (put_ping s nodes p.ping) (put_node s nodes p.sender_id) rest,
    get_ping-put_ping fresh.ping p.ping (put_node s nodes p.sender_id ++ rest) h,
    get_node-put_node s laws nodes nodes_laws p.sender_id rest,
  )

  pub get_bad_request-put_bad_request :
      (fresh r : BadRequest) (rest : List ℕ)
      → Fits fresh.data_ r.data_
      → r.err_code < 2 ^ 8
      → get_bad_request s nodes fresh (put_bad_request s nodes r ++ rest)
        ≡ (record r { data_ = stored r.data_ }, rest)
  unfolding get_bad_request put_bad_request
  get_bad_request-put_bad_request fresh r rest h k = rw (
    append_assoc (put_data s nodes r.data_) (s.u8.put r.err_code ++ s.string.put r.err) rest,
    append_assoc (s.u8.put r.err_code) (s.string.put r.err) rest,
    get_data-put_data fresh.data_ r.data_ (s.u8.put r.err_code ++ (s.string.put r.err ++ rest)) h,
    laws.u8-Reads r.err_code k (s.string.put r.err ++ rest),
    laws.string-Reads r.err rest,
  )

  pub get_bad_node_request-put_bad_node_request :
      (fresh r : BadNodeRequest) (rest : List ℕ)
      → Fits fresh.bad_request.data_ r.bad_request.data_
      → r.bad_request.err_code < 2 ^ 8
      → get_bad_node_request s nodes fresh (put_bad_node_request s nodes r ++ rest) ≡ (
        record r { bad_request = record r.bad_request { data_ = stored r.bad_request.data_ } },
        rest,
      )
  unfolding get_bad_node_request put_bad_node_request
  get_bad_node_request-put_bad_node_request fresh r rest h k = rw (
    append_assoc (put_bad_request s nodes r.bad_request) (put_node s nodes r.sender_id) rest,
    get_bad_request-put_bad_request fresh.bad_request r.bad_request
        (put_node s nodes r.sender_id ++ rest) h k,
    get_node-put_node s laws nodes nodes_laws r.sender_id rest,
  )

  pub get_web_socket-put_web_socket :
      (fresh w : WebSocket) (rest : List ℕ)
      → Fits fresh.data_ w.data_
      → IsInt32 w.request
      → w.subscribe_id < 2 ^ 32
      → get_web_socket s nodes fresh (put_web_socket s nodes w ++ rest)
        ≡ (record w { data_ = stored w.data_ }, rest)
  unfolding get_web_socket put_web_socket
  get_web_socket-put_web_socket fresh w rest h k l = rw (
    append_assoc (put_data s nodes w.data_) (s.i32.put w.request ++ s.u32.put w.subscribe_id) rest,
    append_assoc (s.i32.put w.request) (s.u32.put w.subscribe_id) rest,
    get_data-put_data fresh.data_ w.data_
        (s.i32.put w.request ++ (s.u32.put w.subscribe_id ++ rest)) h,
    laws.i32-Reads w.request k (s.u32.put w.subscribe_id ++ rest),
    laws.u32-Reads w.subscribe_id l rest,
  )

  pub get_web_socket_subscriptions-put_web_socket_subscriptions :
      (fresh w : WebSocketSubscriptions s) (rest : List ℕ)
      → Fits fresh.data_ w.data_
      → ((id : ℕ) → s.contains w.subscribe_ids id ≡ true → id < 2 ^ 32)
      → get_web_socket_subscriptions s nodes fresh (put_web_socket_subscriptions s nodes w ++ rest)
        ≡ (record w { data_ = stored w.data_ }, rest)
  unfolding get_web_socket_subscriptions put_web_socket_subscriptions
  get_web_socket_subscriptions-put_web_socket_subscriptions fresh w rest h k = rw (
    append_assoc (put_data s nodes w.data_) ((s.q_set s.u32).put w.subscribe_ids) rest,
    get_data-put_data fresh.data_ w.data_ ((s.q_set s.u32).put w.subscribe_ids ++ rest) h,
    laws.set-Reads s.u32 w.subscribe_ids (λ x m. laws.u32-Reads x (k x m)) rest,
  )
