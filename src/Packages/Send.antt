-- ===== src/Packages/Send.antt =====
-- isValid of the classes of the packages, and AbstractData::toPackage and fromPakcage for them.
pub mod Delivered
use qt_network_protocol.Prelude.{
  ℕ, ◌%◌, ◌^◌, List, [], Bool, true, false, ◌&&◌, not, Option, none, some, length, ◌==◌, pos, ltb_ℤ,
  if◌then◌else◌,
}
use mathlib.Core.Option.{map as map_option}
use qt_network_protocol.Stream.{Stream}
use qt_network_protocol.Package.{Package, is_valid}
use qt_network_protocol.Database.Object.{permision_is_valid}
use qt_network_protocol.Packages.Fields.{Nodes}
use qt_network_protocol.Packages.Classes.{
  AbstractData, Ping, LongPing, BadRequest, BadNodeRequest, WebSocket, DbObjectData, DeleteObject,
  AbstractNetworkMember, NodeObject, UserMember, AuthRequest, MemberPermisionObject, TransportData,
  WebSocketSubscriptions, KnowAddresses, NetworkRequest, PackageObject, close_connection, ping,
  long_ping, bad_request, bad_node_request, web_socket, web_socket_subscriptions, delete_object,
  network_member, node_object, user_member, auth_request, member_permision_object,
  know_addresses_object, network_request, transport_data, data_cmd,
}
use qt_network_protocol.Packages.Write.{put_package_object}
use qt_network_protocol.Packages.Read.{get_package_object}
use qt_network_protocol.Packages.Rows.{
  Variants, network_member_is_valid, user_is_valid, object_is_valid, id_key,
}

module _ (q_hash : List ℕ → ℕ) (variants : Variants) (s : Stream) where
  -- The base AbstractData of an object
  unfoldable pub base : PackageObject s → AbstractData
  base (close_connection d) = d
  base (ping p) = p.data_
  base (long_ping p) = p.ping.data_
  base (bad_request r) = r.data_
  base (bad_node_request r) = r.bad_request.data_
  base (web_socket w) = w.data_
  base (web_socket_subscriptions w) = w.data_
  base (delete_object o) = o.object.data_
  base (network_member m) = m.object.data_
  base (node_object n) = n.member.object.data_
  base (user_member u) = u.member.object.data_
  base (auth_request r) = r.user.member.object.data_
  base (member_permision_object o) = o.object.data_
  base (know_addresses_object k) = k.data_
  base (network_request r) = r.data_
  base (transport_data t) = t.data_

  -- AbstractData::isValid
  unfoldable pub base_is_valid : AbstractData → Bool
  base_is_valid d = not (data_cmd d == 0)

  -- isValid of the object's class; the node 0 has the empty identity.
  unfoldable pub package_object_is_valid : PackageObject s → Bool
  unfolding base_is_valid
  package_object_is_valid (long_ping p) = base_is_valid p.ping.data_ && not (p.sender_id == 0)
  package_object_is_valid (bad_node_request r) =
      base_is_valid r.bad_request.data_ && not (r.sender_id == 0)
  package_object_is_valid (web_socket w) = ltb_ℤ (pos 0) w.request && base_is_valid w.data_
  package_object_is_valid (delete_object o) = object_is_valid id_key [] o.object
  package_object_is_valid (network_member m) = network_member_is_valid variants m
  package_object_is_valid (node_object n) = network_member_is_valid variants n.member
  package_object_is_valid (user_member u) = user_is_valid variants s u
  package_object_is_valid (auth_request r) = user_is_valid variants s r.user
  package_object_is_valid (member_permision_object o) = permision_is_valid o.key
  package_object_is_valid (network_request r) =
      base_is_valid r.data_ && (not (s.is_empty r.asked_nodes) && is_valid q_hash r.data_request)
  package_object_is_valid (transport_data t) =
      base_is_valid t.data_ && (is_valid q_hash t.payload && not (t.target_address == 0))
  package_object_is_valid x = base_is_valid (base x)

  module _ (nodes : Nodes) where
    -- The package that AbstractData::toPackage fills in.
    unfoldable pub filled : PackageObject s → ℕ → Package
    filled x trigger_hash =
        let bytes = put_package_object s nodes x in
        record {
          hdr = record {
            size = length bytes % 2 ^ 16;
            command = data_cmd (base x);
            hash = q_hash bytes % 2 ^ 32;
            trigger_hash = trigger_hash;
          };
          bytes = bytes;
        }

    -- AbstractData::toPackage; the package, where the source returns true.
    unfoldable pub object_to_package : PackageObject s → ℕ → Option Package
    object_to_package x trigger_hash =
        if not (package_object_is_valid x)
        then none
        else if is_valid q_hash (filled x trigger_hash)
        then some (filled x trigger_hash)
        else none

    -- AbstractData::fromPakcage; the object that the package is read into is left as it is where the
    -- package is empty, and it is not known where a package inside ends early.
    unfoldable pub object_from_package : Package → PackageObject s → Option (PackageObject s)
    object_from_package p x =
        if length p.bytes == 0
        then some x
        else map_option (λ read. read.0) (get_package_object s nodes x p.bytes)
