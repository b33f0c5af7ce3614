-- ===== src/Packages/RoundTrip/Network.antt =====
-- KnowAddresses, NetworkRequest and TransportData, written to a stream and read back.
use qt_network_protocol.Prelude.{
  ℕ, ◌^◌, ◌<◌, ◌≡◌, append_assoc, append-nil, length, List, [], ◌∷◌, ◌++◌, some, ap, subst,
}
use mathlib.Core.Option.{map as map_option}
use qt_network_protocol.Stream.{Stream, StreamLaws, Reads, AllOf}
use qt_network_protocol.HostAddress.{HostAddress}
use qt_network_protocol.Package.{Package, to_bytes, from_stream, HeaderInRange, header_bytes}
use qt_network_protocol.Package.Bytes.{from_stream-to_bytes}
use qt_network_protocol.Packages.Fields.{Nodes, put_node}
use qt_network_protocol.Packages.ReadBack.{NodesLaws, get_host-put_host, get_node-put_node}
use qt_network_protocol.Packages.Classes.{TransportData, KnowAddresses, NetworkRequest}
use qt_network_protocol.Packages.Write.{
  host_codec, node_codec, put_data, put_know_addresses, put_network_request, put_transport_data,
}
use qt_network_protocol.Packages.Read.{
  get_know_addresses, get_network_request, get_transport_data, package_from_bytes, with_request,
  with_responce, with_payload,
}
use qt_network_protocol.Packages.RoundTrip.Plain.{stored, Fits, get_data-put_data}

-- A package whose header fits its widths and has the length of the data.
pub record IsPacked (p : Package) : Type 0 where
  pub header : HeaderInRange p.hdr
  pub size : p.hdr.size ≡ length p.bytes

package_from_bytes-to_bytes :
    (fresh p : Package) → IsPacked p → package_from_bytes fresh (to_bytes p) ≡ some p
unfolding package_from_bytes to_bytes header_bytes
package_from_bytes-to_bytes fresh p h =
    let read : from_stream (to_bytes p ++ []) ≡ some (p, []) =
      from_stream-to_bytes p [] h.header h.size in
    ap (λ o. map_option (λ q. q.0) o)
      (subst (λ l. from_stream l ≡ some (p, [])) (append-nil (to_bytes p)) read)

module _ (s : Stream) (laws : StreamLaws s) (nodes : Nodes) (nodes_laws : NodesLaws nodes) where
  pub get_know_addresses-put_know_addresses :
      (fresh k : KnowAddresses s) (rest : List ℕ)
      → Fits fresh.data_ k.data_
      → get_know_addresses s nodes fresh (put_know_addresses s nodes k ++ rest)
        ≡ (record k { data_ = stored k.data_ }, rest)
  unfolding get_know_addresses put_know_addresses
  get_know_addresses-put_know_addresses fresh k rest h = rw (
    append_assoc (put_data s nodes k.data_) ((s.q_set (node_codec s nodes)).put k.know_addresses)
        rest,
    get_data-put_data s laws nodes nodes_laws fresh.data_ k.data_
        ((s.q_set (node_codec s nodes)).put k.know_addresses ++ rest) h,
    laws.set-Reads (node_codec s nodes) k.know_addresses
        (λ x m. get_node-put_node s laws nodes nodes_laws x) rest,
  )

  ports-Reads :
      (route : List HostAddress)
      → AllOf (λ a. a.port < 2 ^ 16) route
      → AllOf (Reads (host_codec s nodes)) route
  ports-Reads [] h = h
  ports-Reads (a ∷ route) h = (λ rest. get_host-put_host s laws a rest h.0, ports-Reads route h.1)

  pub get_network_request-put_network_request :
      (fresh r : NetworkRequest s) (rest : List ℕ)
      → Fits fresh.data_ r.data_
      → IsPacked r.data_request
      → IsPacked r.data_responce
      → get_network_request s nodes fresh (put_network_request s nodes r ++ rest)
        ≡ some (record r { data_ = stored r.data_ }, rest)
  unfolding get_network_request put_network_request with_request with_responce
  get_network_request-put_network_request fresh r rest h k l =
      let asked : List ℕ = (s.q_set (node_codec s nodes)).put r.asked_nodes in
      rw (
        append_assoc (put_data s nodes r.data_)
            (to_bytes r.data_request ++ (asked ++ to_bytes r.data_responce)) rest,
        append_assoc (to_bytes r.data_request) (asked ++ to_bytes r.data_responce) rest,
        append_assoc asked (to_bytes r.data_responce) rest,
        get_data-put_data s laws nodes nodes_laws fresh.data_ r.data_
            (to_bytes r.data_request ++ (asked ++ (to_bytes r.data_responce ++ rest))) h,
        from_stream-to_bytes r.data_request (asked ++ (to_bytes r.data_responce ++ rest)) k.header
            k.size,
        laws.set-Reads (node_codec s nodes) r.asked_nodes
            (λ x m. get_node-put_node s laws nodes nodes_laws x) (to_bytes r.data_responce ++ rest),
        from_stream-to_bytes r.data_responce rest l.header l.size,
        get_network_request,
      )

  pub get_transport_data-put_transport_data :
      (fresh t : TransportData) (rest : List ℕ)
      → Fits fresh.data_ t.data_
      → AllOf (λ a. a.port < 2 ^ 16) t.route
      → IsPacked t.payload
      → get_transport_data s nodes fresh (put_transport_data s nodes t ++ rest)
        ≡ some (record t { data_ = stored t.data_ }, rest)
  unfolding get_transport_data put_transport_data with_payload
  get_transport_data-put_transport_data fresh t rest h k l =
      let bytes : List ℕ = s.byte_array.put (to_bytes t.payload) in
      let route : List ℕ = (s.q_list (host_codec s nodes)).put t.route ++ bytes in
      let complete : List ℕ = s.boolean.put t.route_is_complete ++ route in
      let package_id : List ℕ = put_node s nodes t.package_id ++ complete in
      let sender : List ℕ = put_node s nodes t.sender_id ++ package_id in
      let target : List ℕ = put_node s nodes t.target_address ++ sender in
      rw (
        append_assoc (put_data s nodes t.data_) target rest,
        append_assoc (put_node s nodes t.target_address) sender rest,
        append_assoc (put_node s nodes t.sender_id) package_id rest,
        append_assoc (put_node s nodes t.package_id) complete rest,
        append_assoc (s.boolean.put t.route_is_complete) route rest,
        append_assoc ((s.q_list (host_codec s nodes)).put t.route) bytes rest,
        get_data-put_data s laws nodes nodes_laws fresh.data_ t.data_ _ h,
        get_node-put_node s laws nodes nodes_laws t.target_address _,
        get_node-put_node s laws nodes nodes_laws t.sender_id _,
        get_node-put_node s laws nodes nodes_laws t.package_id _,
        laws.boolean-Reads t.route_is_complete _,
        laws.list-Reads (host_codec s nodes) t.route (ports-Reads t.route k) _,
        laws.byte_array-Reads (to_bytes t.payload) rest,
        package_from_bytes-to_bytes fresh.payload t.payload l,
        get_transport_data,
      )
