-- ===== src/Packages/Write.antt =====
-- toStream of the classes of the packages, each of which calls that of its base.
use qt_network_protocol.Prelude.{ℕ, List, ◌++◌}
use qt_network_protocol.Stream.{Codec, Stream}
use qt_network_protocol.HostAddress.{HostAddress}
use qt_network_protocol.Package.{to_bytes}
use qt_network_protocol.Packages.Fields.{
  Nodes, put_address, put_permision, put_token, put_host, put_node, get_host, get_node,
}
use qt_network_protocol.Packages.Classes.{
  AbstractData, Ping, LongPing, BadRequest, BadNodeRequest, WebSocket, DbObjectData, DeleteObject,
  AbstractNetworkMember, NodeObject, UserMember, AuthRequest, MemberPermisionObject, TransportData,
  WebSocketSubscriptions, KnowAddresses, NetworkRequest, PackageObject, close_connection, ping,
  long_ping, bad_request, bad_node_request, web_socket, web_socket_subscriptions, delete_object,
  network_member, node_object, user_member, auth_request, member_permision_object,
  know_addresses_object, network_request, transport_data, data_cmd,
}

module _ (s : Stream) (nodes : Nodes) where
  -- operator << and >> of HostAddress and of NodeId, as the containers use them
  abbrev pub host_codec : Codec HostAddress
  host_codec = record { put = put_host s; get = get_host s }

  abbrev pub node_codec : Codec ℕ
  node_codec = record { put = put_node s nodes; get = get_node s nodes }

  -- AbstractData::toStream
  unfoldable pub put_data : AbstractData → List ℕ
  put_data d = s.u16.put (data_cmd d)

  -- Ping::toStream
  unfoldable pub put_ping : Ping → List ℕ
  put_ping p = put_data p.data_ ++ s.boolean.put p.ansver

  -- LongPing::toStream
  unfoldable pub put_long_ping : LongPing → List ℕ
  put_long_ping p = put_ping p.ping ++ put_node s nodes p.sender_id

  -- BadRequest::toStream
  unfoldable pub put_bad_request : BadRequest → List ℕ
  put_bad_request r = put_data r.data_ ++ (s.u8.put r.err_code ++ s.string.put r.err)

  -- BadNodeRequest::toStream
  unfoldable pub put_bad_node_request : BadNodeRequest → List ℕ
  put_bad_node_request r = put_bad_request r.bad_request ++ put_node s nodes r.sender_id

  -- WebSocket::toStream
  unfoldable pub put_web_socket : WebSocket → List ℕ
  put_web_socket w = put_data w.data_ ++ (s.i32.put w.request ++ s.u32.put w.subscribe_id)

  -- WebSocketSubscriptions::toStream
  unfoldable pub put_web_socket_subscriptions : WebSocketSubscriptions s → List ℕ
  put_web_socket_subscriptions w = put_data w.data_ ++ (s.q_set s.u32).put w.subscribe_ids

  -- DBObject::toStream
  unfoldable pub put_db_object : DbObjectData → List ℕ
  put_db_object o = put_data o.data_ ++ put_address s o.address

  -- DeleteObject::toStream
  unfoldable pub put_delete_object : DeleteObject → List ℕ
  put_delete_object o = put_db_object o.object ++ put_token s o.token

  -- AbstractNetworkMember::toStream
  unfoldable pub put_network_member : AbstractNetworkMember → List ℕ
  put_network_member m =
      put_db_object m.object ++ (s.byte_array.put m.authentication_data ++ s.i32.put m.trust)

  -- NodeObject::toStream
  unfoldable pub put_node_object : NodeObject → List ℕ
  put_node_object n = put_network_member n.member ++ put_node s nodes n.sender_id

  -- UserMember::toStream
  unfoldable pub put_user_member : UserMember → List ℕ
  put_user_member u = put_network_member u.member ++ put_token s u.token

  -- AuthRequest::toStream
  unfoldable pub put_auth_request : AuthRequest → List ℕ
  put_auth_request r = put_user_member r.user ++ s.u8.put r.request

  -- MemberPermisionObject::toStream, which does not call that of its base
  unfoldable pub put_member_permision_object : MemberPermisionObject → List ℕ
  put_member_permision_object o = put_permision s o.key ++ s.u8.put o.permision

  -- KnowAddresses::toStream
  unfoldable pub put_know_addresses : KnowAddresses s → List ℕ
  put_know_addresses k = put_data k.data_ ++ (s.q_set node_codec).put k.know_addresses

  -- NetworkRequest::toStream
  unfoldable pub put_network_request : NetworkRequest s → List ℕ
  put_network_request r =
      put_data r.data_
      ++ (to_bytes r.data_request
          ++ ((s.q_set node_codec).put r.asked_nodes ++ to_bytes r.data_responce))

  -- TransportData::toStream
  unfoldable pub put_transport_data : TransportData → List ℕ
  put_transport_data t =
      put_data t.data_
      ++ (put_node s nodes t.target_address
          ++ (put_node s nodes t.sender_id
              ++ (put_node s nodes t.package_id
                  ++ (s.boolean.put t.route_is_complete
                      ++ ((s.q_list host_codec).put t.route
                          ++ s.byte_array.put (to_bytes t.payload))))))

  -- toStream of the object's class
  unfoldable pub put_package_object : PackageObject s → List ℕ
  put_package_object (close_connection d) = put_data d
  put_package_object (ping p) = put_ping p
  put_package_object (long_ping p) = put_long_ping p
  put_package_object (bad_request r) = put_bad_request r
  put_package_object (bad_node_request r) = put_bad_node_request r
  put_package_object (web_socket w) = put_web_socket w
  put_package_object (web_socket_subscriptions w) = put_web_socket_subscriptions w
  put_package_object (delete_object o) = put_delete_object o
  put_package_object (network_member m) = put_network_member m
  put_package_object (node_object n) = put_node_object n
  put_package_object (user_member u) = put_user_member u
  put_package_object (auth_request r) = put_auth_request r
  put_package_object (member_permision_object o) = put_member_permision_object o
  put_package_object (know_addresses_object k) = put_know_addresses k
  put_package_object (network_request r) = put_network_request r
  put_package_object (transport_data t) = put_transport_data t
