-- ===== src/Packages/Read.antt =====
-- fromStream of the classes of the packages, each of which calls that of its base: the object with
-- the members that were read, and the rest of the stream. A package in the stream that ends early
-- gives `none`, since the source goes on with uninitialised memory.
use qt_network_protocol.Prelude.{ℕ, List, [], ◌∷◌, Option, none, some}
use mathlib.Core.Option.{map as map_option}
use qt_network_protocol.Stream.{Stream}
use qt_network_protocol.Package.{Package, from_stream}
use qt_network_protocol.Packages.Fields.{Nodes, get_address, get_permision, get_token, get_node}
use qt_network_protocol.Packages.Write.{host_codec, node_codec}
use qt_network_protocol.Packages.Classes.{
  AbstractData, Ping, LongPing, BadRequest, BadNodeRequest, WebSocket, DbObjectData, DeleteObject,
  AbstractNetworkMember, NodeObject, UserMember, AuthRequest, MemberPermisionObject, TransportData,
  WebSocketSubscriptions, KnowAddresses, NetworkRequest, PackageObject, close_connection, ping,
  long_ping, bad_request, bad_node_request, web_socket, web_socket_subscriptions, delete_object,
  network_member, node_object, user_member, auth_request, member_permision_object,
  know_addresses_object, network_request, transport_data,
}

-- StreamBase::fromBytes of a package, which an empty array leaves as it is
unfoldable pub package_from_bytes : Package → List ℕ → Option Package
package_from_bytes p [] = some p
package_from_bytes p (b ∷ bytes) = map_option (λ q. q.0) (from_stream (b ∷ bytes))

module _ (s : Stream) (nodes : Nodes) where
  -- AbstractData::fromStream
  unfoldable pub get_data : AbstractData → List ℕ → AbstractData × List ℕ
  get_data d stream = let (c, stream1) = s.u16.get stream in (record d { stored_cmd = c }, stream1)

  -- Ping::fromStream
  unfoldable pub get_ping : Ping → List ℕ → Ping × List ℕ
  get_ping p stream =
      let (data_, stream1) = get_data p.data_ stream in
      let (ansver, stream2) = s.boolean.get stream1 in
      (record { data_ = data_; ansver = ansver }, stream2)

  -- LongPing::fromStream
  unfoldable pub get_long_ping : LongPing → List ℕ → LongPing × List ℕ
  get_long_ping p stream =
      let (base, stream1) = get_ping p.ping stream in
      let (sender_id, stream2) = get_node s nodes stream1 in
      (record { ping = base; sender_id = sender_id }, stream2)

  -- BadRequest::fromStream
  unfoldable pub get_bad_request : BadRequest → List ℕ → BadRequest × List ℕ
  get_bad_request r stream =
      let (data_, stream1) = get_data r.data_ stream in
      let (err_code, stream2) = s.u8.get stream1 in
      let (err, stream3) = s.string.get stream2 in
      (record { data_ = data_; err_code = err_code; err = err }, stream3)

  -- BadNodeRequest::fromStream
  unfoldable pub get_bad_node_request : BadNodeRequest → List ℕ → BadNodeRequest × List ℕ
  get_bad_node_request r stream =
      let (base, stream1) = get_bad_request r.bad_request stream in
      let (sender_id, stream2) = get_node s nodes stream1 in
      (record { bad_request = base; sender_id = sender_id }, stream2)

  -- WebSocket::fromStream
  unfoldable pub get_web_socket : WebSocket → List ℕ → WebSocket × List ℕ
  get_web_socket w stream =
      let (data_, stream1) = get_data w.data_ stream in
      let (request, stream2) = s.i32.get stream1 in
      let (subscribe_id, stream3) = s.u32.get stream2 in
      (record { data_ = data_; request = request; subscribe_id = subscribe_id }, stream3)

  -- WebSocketSubscriptions::fromStream
  unfoldable pub get_web_socket_subscriptions :
      WebSocketSubscriptions s → List ℕ → WebSocketSubscriptions s × List ℕ
  get_web_socket_subscriptions w stream =
      let (data_, stream1) = get_data w.data_ stream in
      let (subscribe_ids, stream2) = (s.q_set s.u32).get stream1 in
      (record { data_ = data_; subscribe_ids = subscribe_ids }, stream2)

  -- DBObject::fromStream
  unfoldable pub get_db_object : DbObjectData → List ℕ → DbObjectData × List ℕ
  get_db_object o stream =
      let (data_, stream1) = get_data o.data_ stream in
      let (address, stream2) = get_address s stream1 in
      (record { data_ = data_; address = address }, stream2)

  -- DeleteObject::fromStream
  unfoldable pub get_delete_object : DeleteObject → List ℕ → DeleteObject × List ℕ
  get_delete_object o stream =
      let (object, stream1) = get_db_object o.object stream in
      let (token, stream2) = get_token s stream1 in
      (record { object = object; token = token }, stream2)

  -- AbstractNetworkMember::fromStream
  unfoldable pub get_network_member :
      AbstractNetworkMember → List ℕ → AbstractNetworkMember × List ℕ
  get_network_member m stream =
      let (object, stream1) = get_db_object m.object stream in
      let (authentication_data, stream2) = s.byte_array.get stream1 in
      let (trust, stream3) = s.i32.get stream2 in
      (
        record { object = object; authentication_data = authentication_data; trust = trust },
        stream3,
      )

  -- NodeObject::fromStream
  unfoldable pub get_node_object : NodeObject → List ℕ → NodeObject × List ℕ
  get_node_object n stream =
      let (member, stream1) = get_network_member n.member stream in
      let (sender_id, stream2) = get_node s nodes stream1 in
      (record { member = member; sender_id = sender_id }, stream2)

  -- UserMember::fromStream
  unfoldable pub get_user_member : UserMember → List ℕ → UserMember × List ℕ
  get_user_member u stream =
      let (member, stream1) = get_network_member u.member stream in
      let (token, stream2) = get_token s stream1 in
      (record { member = member; token = token }, stream2)

  -- AuthRequest::fromStream
  unfoldable pub get_auth_request : AuthRequest → List ℕ → AuthRequest × List ℕ
  get_auth_request r stream =
      let (user, stream1) = get_user_member r.user stream in
      let (request, stream2) = s.u8.get stream1 in
      (record { user = user; request = request }, stream2)

  -- MemberPermisionObject::fromStream, which does not call that of its base
  unfoldable pub get_member_permision_object :
      MemberPermisionObject → List ℕ → MemberPermisionObject × List ℕ
  get_member_permision_object o stream =
      let (key, stream1) = get_permision s stream in
      let (permision, stream2) = s.u8.get stream1 in
      (record o { key = key; permision = permision }, stream2)

  -- KnowAddresses::fromStream
  unfoldable pub get_know_addresses : KnowAddresses s → List ℕ → KnowAddresses s × List ℕ
  get_know_addresses k stream =
      let (data_, stream1) = get_data k.data_ stream in
      let (know_addresses, stream2) = (s.q_set (node_codec s nodes)).get stream1 in
      (record { data_ = data_; know_addresses = know_addresses }, stream2)

  -- NetworkRequest::fromStream from the response on
  unfoldable pub with_responce :
      NetworkRequest s → Option (Package × List ℕ) → Option (NetworkRequest s × List ℕ)
  with_responce r none = none
  with_responce r (some (data_responce, stream)) =
      some (record r { data_responce = data_responce }, stream)

  -- NetworkRequest::fromStream from the request on
  unfoldable pub with_request :
      NetworkRequest s → Option (Package × List ℕ) → Option (NetworkRequest s × List ℕ)
  unfolding with_responce
  with_request r none = none
  with_request r (some (data_request, stream2)) =
      let (asked_nodes, stream3) = (s.q_set (node_codec s nodes)).get stream2 in
      with_responce (record r { data_request = data_request; asked_nodes = asked_nodes })
        (from_stream stream3)

  -- NetworkRequest::fromStream
  unfoldable pub get_network_request :
      NetworkRequest s → List ℕ → Option (NetworkRequest s × List ℕ)
  get_network_request r stream =
      let (data_, stream1) = get_data r.data_ stream in
      with_request (record r { data_ = data_ }) (from_stream stream1)

  -- TransportData::fromStream from the package on, which stands before `stream`
  unfoldable pub with_payload :
      TransportData → List ℕ → Option Package → Option (TransportData × List ℕ)
  with_payload t stream none = none
  with_payload t stream (some payload) = some (record t { payload = payload }, stream)

  -- TransportData::fromStream
  unfoldable pub get_transport_data : TransportData → List ℕ → Option (TransportData × List ℕ)
  get_transport_data t stream =
      let (data_, stream1) = get_data t.data_ stream in
      let (target_address, stream2) = get_node s nodes stream1 in
      let (sender_id, stream3) = get_node s nodes stream2 in
      let (package_id, stream4) = get_node s nodes stream3 in
      let (route_is_complete, stream5) = s.boolean.get stream4 in
      let (route, stream6) = (s.q_list (host_codec s nodes)).get stream5 in
      let (array, stream7) = s.byte_array.get stream6 in
      with_payload
        (record t {
          data_ = data_;
          target_address = target_address;
          sender_id = sender_id;
          package_id = package_id;
          route_is_complete = route_is_complete;
          route = route;
        })
        stream7 (package_from_bytes t.payload array)

  -- fromStream of the object's class
  unfoldable pub get_package_object : PackageObject s → List ℕ → Option (PackageObject s × List ℕ)
  get_package_object (close_connection d) stream =
      let (read, rest) = get_data d stream in some (close_connection read, rest)
  get_package_object (ping p) stream =
      let (read, rest) = get_ping p stream in some (ping read, rest)
  get_package_object (long_ping p) stream =
      let (read, rest) = get_long_ping p stream in some (long_ping read, rest)
  get_package_object (bad_request r) stream =
      let (read, rest) = get_bad_request r stream in some (bad_request read, rest)
  get_package_object (bad_node_request r) stream =
      let (read, rest) = get_bad_node_request r stream in some (bad_node_request read, rest)
  get_package_object (web_socket w) stream =
      let (read, rest) = get_web_socket w stream in some (web_socket read, rest)
  get_package_object (web_socket_subscriptions w) stream =
      let (read, rest) = get_web_socket_subscriptions w stream in
      some (web_socket_subscriptions read, rest)
  get_package_object (delete_object o) stream =
      let (read, rest) = get_delete_object o stream in some (delete_object read, rest)
  get_package_object (network_member m) stream =
      let (read, rest) = get_network_member m stream in some (network_member read, rest)
  get_package_object (node_object n) stream =
      let (read, rest) = get_node_object n stream in some (node_object read, rest)
  get_package_object (user_member u) stream =
      let (read, rest) = get_user_member u stream in some (user_member read, rest)
  get_package_object (auth_request r) stream =
      let (read, rest) = get_auth_request r stream in some (auth_request read, rest)
  get_package_object (member_permision_object o) stream =
      let (read, rest) = get_member_permision_object o stream in
      some (member_permision_object read, rest)
  get_package_object (know_addresses_object k) stream =
      let (read, rest) = get_know_addresses k stream in some (know_addresses_object read, rest)
  get_package_object (network_request r) stream =
      map_option (λ read. (network_request read.0, read.1)) (get_network_request r stream)
  get_package_object (transport_data t) stream =
      map_option (λ read. (transport_data read.0, read.1)) (get_transport_data t stream)
