-- ===== src/Tests/NodeTests.antt =====
-- The node at concrete inputs.
use qt_network_protocol.Prelude.{◌≡◌, ◌≤◌, refl, true, false, some, none, arith, lookup}
use qt_network_protocol.HostAddress.{equal, host_address_eq}
use qt_network_protocol.NodeInfo.{
  NodeInfo, initial, connected, remove_socket, set_trust, not_connected,
}
use qt_network_protocol.NodeInfo
use qt_network_protocol.Data.{data_is_valid, data_bytes, put_content, cmd, members_valid}
use qt_network_protocol.Node.State.{Node, connections_count, count_if}
use qt_network_protocol.Node.Register.{register_socket}
use qt_network_protocol.Node.Parse.{parse_package, processed}
use qt_network_protocol.Node.Trust.{IsExpelled, punish, punish_bans}
use qt_network_protocol.Node.Limit.{register_socket_limit}
use qt_network_protocol.Data.ToPackage.{carrier}
use qt_network_protocol.Node.Answer.{wrote, ping_data, parse_package-ping}
use qt_network_protocol.Tests.Samples.{qt, laws, net, peer, socket, peer_info, node, ping_package}

known : lookup peer node.connections ≡ some peer_info
unfolding lookup equal
known = refl

punish_bans_example : IsExpelled peer (punish 20 peer node)
punish_bans_example =
    punish_bans 20 100 peer node peer_info known refl (omega arith) (omega arith) (omega arith)

-- A node that is full.
abbrev full : Node
full = record node { max_pending_connections = 1 }

connections_count-full : connections_count full ≡ 1
unfolding connections_count count_if NodeInfo.is_connected NodeInfo.is_valid
connections_count-full = refl

register_socket_limit_example : connections_count (register_socket socket none full).0 ≤ 1
register_socket_limit_example =
    register_socket_limit socket none full (omega (arith, connections_count-full))

parse_package-ping_example :
    (parse_package qt net (ping_data 7 false) ping_package.hdr (some peer_info) node
      ≡ (wrote socket (carrier qt (ping_data 7 true) 1003) node, processed))
    × (parse_package qt net (ping_data 7 true) ping_package.hdr (some peer_info) node
        ≡ (node, processed))
unfolding cmd data_is_valid data_bytes put_content members_valid
parse_package-ping_example =
    parse_package-ping qt laws net 7 ping_package.hdr peer_info peer_info socket node refl
      (record {
        valid = refl;
        command_bound = omega arith;
        length_bound = omega arith;
        hashed = omega arith;
      })
      (omega arith) known refl (record { usable = refl; connects = refl; takes_all = refl })
