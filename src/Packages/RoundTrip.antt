-- ===== src/Packages/RoundTrip.antt =====
-- An object of any class of the packages, written to a stream and read back.
pub mod Plain
pub mod Objects
pub mod Network
use qt_network_protocol.Prelude.{ℕ, ◌^◌, ◌<◌, ◌≡◌, List, ◌++◌, true, Option, some, ap}
use mathlib.Core.Option.{map as map_option}
use qt_network_protocol.Stream.{Stream, StreamLaws, AllOf, IsInt32}
use qt_network_protocol.Packages.Fields.{Nodes}
use qt_network_protocol.Packages.ReadBack.{NodesLaws}
use qt_network_protocol.Packages.Classes.{
  AbstractData, Ping, LongPing, BadRequest, BadNodeRequest, WebSocket, DbObjectData, DeleteObject,
  AbstractNetworkMember, NodeObject, UserMember, AuthRequest, MemberPermisionObject, TransportData,
  WebSocketSubscriptions, KnowAddresses, NetworkRequest, PackageObject, close_connection, ping,
  long_ping, bad_request, bad_node_request, web_socket, web_socket_subscriptions, delete_object,
  network_member, node_object, user_member, auth_request, member_permision_object,
  know_addresses_object, network_request, transport_data,
}
use qt_network_protocol.Packages.Write.{put_package_object}
use qt_network_protocol.Packages.Read.{get_package_object}
use Plain.{
  stored, Fits, get_data-put_data, get_ping-put_ping, get_long_ping-put_long_ping,
  get_bad_request-put_bad_request, get_bad_node_request-put_bad_node_request,
  get_web_socket-put_web_socket, get_web_socket_subscriptions-put_web_socket_subscriptions,
}
use Objects.{
  get_db_object-put_db_object, get_delete_object-put_delete_object,
  get_network_member-put_network_member, get_node_object-put_node_object,
  get_user_member-put_user_member, get_auth_request-put_auth_request,
  get_member_permision_object-put_member_permision_object,
}
use Network.{
  IsPacked, get_know_addresses-put_know_addresses, get_network_request-put_network_request,
  get_transport_data-put_transport_data,
}

module _ (s : Stream) where
  -- Two objects of one class, where the values of the second fit the types that it is written as.
  abbrev pub CanSend : PackageObject s → PackageObject s → Type 0
  CanSend (close_connection f) (close_connection d) = Fits f d
  CanSend (ping f) (ping p) = Fits f.data_ p.data_
  CanSend (long_ping f) (long_ping p) = Fits f.ping.data_ p.ping.data_
  CanSend (bad_request f) (bad_request r) = (Fits f.data_ r.data_) × (r.err_code < 2 ^ 8)
  CanSend (bad_node_request f) (bad_node_request r) =
      (Fits f.bad_request.data_ r.bad_request.data_) × (r.bad_request.err_code < 2 ^ 8)
  CanSend (web_socket f) (web_socket w) =
      (Fits f.data_ w.data_) × (IsInt32 w.request) × (w.subscribe_id < 2 ^ 32)
  CanSend (web_socket_subscriptions f) (web_socket_subscriptions w) =
      (Fits f.data_ w.data_) × ((id : ℕ) → s.contains w.subscribe_ids id ≡ true → id < 2 ^ 32)
  CanSend (delete_object f) (delete_object o) =
      (Fits f.object.data_ o.object.data_)
      × (s.can_stream o.object.address.id ≡ true)
      × (o.token.duration < 2 ^ 31)
  CanSend (network_member f) (network_member m) =
      (Fits f.object.data_ m.object.data_)
      × (s.can_stream m.object.address.id ≡ true)
      × (IsInt32 m.trust)
  CanSend (node_object f) (node_object n) =
      (Fits f.member.object.data_ n.member.object.data_)
      × (s.can_stream n.member.object.address.id ≡ true)
      × (IsInt32 n.member.trust)
  CanSend (user_member f) (user_member u) =
      (Fits f.member.object.data_ u.member.object.data_)
      × (s.can_stream u.member.object.address.id ≡ true)
      × (IsInt32 u.member.trust)
      × (u.token.duration < 2 ^ 31)
  CanSend (auth_request f) (auth_request r) =
      (Fits f.user.member.object.data_ r.user.member.object.data_)
      × (s.can_stream r.user.member.object.address.id ≡ true)
      × (IsInt32 r.user.member.trust)
      × (r.user.token.duration < 2 ^ 31)
      × (r.request < 2 ^ 8)
  CanSend (member_permision_object _) (member_permision_object o) =
      (s.can_stream o.key.id ≡ true) × (o.permision < 2 ^ 8)
  CanSend (know_addresses_object f) (know_addresses_object k) = Fits f.data_ k.data_
  CanSend (network_request f) (network_request r) =
      (Fits f.data_ r.data_) × (IsPacked r.data_request) × (IsPacked r.data_responce)
  CanSend (transport_data f) (transport_data t) =
      (Fits f.data_ t.data_) × (AllOf (λ a. a.port < 2 ^ 16) t.route) × (IsPacked t.payload)
  CanSend _ _ = ⊥

  -- The object that is read into a fresh one: the members of the written one, with its command
  -- stored; the base of a permission object is that of the fresh one.
  unfoldable pub received : PackageObject s → PackageObject s → PackageObject s
  received _ (close_connection d) = close_connection (stored d)
  received _ (ping p) = ping (record p { data_ = stored p.data_ })
  received _ (long_ping p) =
      long_ping (record p { ping = record p.ping { data_ = stored p.ping.data_ } })
  received _ (bad_request r) = bad_request (record r { data_ = stored r.data_ })
  received _ (bad_node_request r) =
      bad_node_request
        (record r { bad_request = record r.bad_request { data_ = stored r.bad_request.data_ } })
  received _ (web_socket w) = web_socket (record w { data_ = stored w.data_ })
  received _ (web_socket_subscriptions w) =
      web_socket_subscriptions (record w { data_ = stored w.data_ })
  received _ (delete_object o) =
      delete_object (record o { object = record o.object { data_ = stored o.object.data_ } })
  received _ (network_member m) =
      network_member (record m { object = record m.object { data_ = stored m.object.data_ } })
  received _ (node_object n) = node_object (record n {
    member = record n.member {
      object = record n.member.object { data_ = stored n.member.object.data_ };
    };
  })
  received _ (user_member u) = user_member (record u {
    member = record u.member {
      object = record u.member.object { data_ = stored u.member.object.data_ };
    };
  })
  received _ (auth_request r) = auth_request (record r {
    user = record r.user {
      member = record r.user.member {
        object = record r.user.member.object { data_ = stored r.user.member.object.data_ };
      };
    };
  })
  received (member_permision_object f) (member_permision_object o) =
      member_permision_object (record o { object = f.object })
  received _ (know_addresses_object k) = know_addresses_object (record k { data_ = stored k.data_ })
  received _ (network_request r) = network_request (record r { data_ = stored r.data_ })
  received _ (transport_data t) = transport_data (record t { data_ = stored t.data_ })
  received _ (member_permision_object o) = member_permision_object o

module _ (s : Stream) (laws : StreamLaws s) (nodes : Nodes) (nodes_laws : NodesLaws nodes) where
  -- Reading what an object of one of the sixteen classes wrote, into an object of its class and with
  -- anything behind it in the stream, gives the members back and the rest of the stream, where the
  -- values fit the types that they are written as and the types of the ids have stream operators.
  pub get_package_object-put_package_object :
      (fresh x : PackageObject s) (rest : List ℕ)
      → CanSend s fresh x
      → get_package_object s nodes fresh (put_package_object s nodes x ++ rest)
        ≡ some (received s fresh x, rest)
  unfolding get_package_object put_package_object received
  get_package_object-put_package_object (close_connection f) (close_connection d) rest h =
      ap (λ r. some (close_connection r.0, r.1))
        (get_data-put_data s laws nodes nodes_laws f d rest h)
  get_package_object-put_package_object (ping f) (ping p) rest h =
      ap (λ r. some (ping r.0, r.1)) (get_ping-put_ping s laws nodes nodes_laws f p rest h)
  get_package_object-put_package_object (long_ping f) (long_ping p) rest h =
      ap (λ r. some (long_ping r.0, r.1))
        (get_long_ping-put_long_ping s laws nodes nodes_laws f p rest h)
  get_package_object-put_package_object (bad_request f) (bad_request r) rest h =
      ap (λ r. some (bad_request r.0, r.1))
        (get_bad_request-put_bad_request s laws nodes nodes_laws f r rest h.0 h.1)
  get_package_object-put_package_object (bad_node_request f) (bad_node_request r) rest h =
      ap (λ r. some (bad_node_request r.0, r.1))
        (get_bad_node_request-put_bad_node_request s laws nodes nodes_laws f r rest h.0 h.1)
  get_package_object-put_package_object (web_socket f) (web_socket w) rest h =
      ap (λ r. some (web_socket r.0, r.1))
        (get_web_socket-put_web_socket s laws nodes nodes_laws f w rest h.0 h.1 h.2)
  get_package_object-put_package_object (web_socket_subscriptions f) (web_socket_subscriptions w)
        rest h =
      ap (λ r. some (web_socket_subscriptions r.0, r.1))
        (get_web_socket_subscriptions-put_web_socket_subscriptions s laws nodes nodes_laws f w rest
          h.0 h.1)
  get_package_object-put_package_object (delete_object f) (delete_object o) rest h =
      ap (λ r. some (delete_object r.0, r.1))
        (get_delete_object-put_delete_object s laws nodes nodes_laws f o rest h.0 h.1 h.2)
  get_package_object-put_package_object (network_member f) (network_member m) rest h =
      ap (λ r. some (network_member r.0, r.1))
        (get_network_member-put_network_member s laws nodes nodes_laws f m rest h.0 h.1 h.2)
  get_package_object-put_package_object (node_object f) (node_object n) rest h =
      ap (λ r. some (node_object r.0, r.1))
        (get_node_object-put_node_object s laws nodes nodes_laws f n rest h.0 h.1 h.2)
  get_package_object-put_package_object (user_member f) (user_member u) rest h =
      ap (λ r. some (user_member r.0, r.1))
        (get_user_member-put_user_member s laws nodes nodes_laws f u rest h.0 h.1 h.2 h.3)
  get_package_object-put_package_object (auth_request f) (auth_request r) rest h =
      ap (λ r. some (auth_request r.0, r.1))
        (get_auth_request-put_auth_request s laws nodes nodes_laws f r rest h.0 h.1 h.2 h.3 h.4)
  get_package_object-put_package_object (member_permision_object f) (member_permision_object o) rest
        h =
      ap (λ r. some (member_permision_object r.0, r.1))
        (get_member_permision_object-put_member_permision_object s laws nodes nodes_laws f o rest
          h.0 h.1)
  get_package_object-put_package_object (know_addresses_object f) (know_addresses_object k) rest h =
      ap (λ r. some (know_addresses_object r.0, r.1))
        (get_know_addresses-put_know_addresses s laws nodes nodes_laws f k rest h)
  get_package_object-put_package_object (network_request f) (network_request r) rest h =
      ap (λ o. map_option (λ read. (network_request read.0, read.1)) o)
        (get_network_request-put_network_request s laws nodes nodes_laws f r rest h.0 h.1 h.2)
  get_package_object-put_package_object (transport_data f) (transport_data t) rest h =
      ap (λ o. map_option (λ read. (transport_data read.0, read.1)) o)
        (get_transport_data-put_transport_data s laws nodes nodes_laws f t rest h.0 h.1 h.2)
  get_package_object-put_package_object _ _ rest h = absurd h
