-- ===== src/Packages/RoundTrip/Objects.antt =====
-- The database objects, written to a stream and read back into an object of the class.
use qt_network_protocol.Prelude.{ℕ, ◌^◌, ◌<◌, ◌≡◌, append_assoc, List, ◌++◌, true}
use qt_network_protocol.Stream.{Stream, StreamLaws, IsInt32}
use qt_network_protocol.Packages.Fields.{Nodes, put_address, put_permision, put_token, put_node}
use qt_network_protocol.Packages.ReadBack.{
  NodesLaws, get_address-put_address, get_permision-put_permision, get_token-put_token,
  get_node-put_node,
}
use qt_network_protocol.Packages.Classes.{
  DbObjectData, DeleteObject, AbstractNetworkMember, NodeObject, UserMember, AuthRequest,
  MemberPermisionObject,
}
use qt_network_protocol.Packages.Write.{
  put_data, put_db_object, put_delete_object, put_network_member, put_node_object, put_user_member,
  put_auth_request, put_member_permision_object,
}
use qt_network_protocol.Packages.Read.{
  get_db_object, get_delete_object, get_network_member, get_node_object, get_user_member,
  get_auth_request, get_member_permision_object,
}
use qt_network_protocol.Packages.RoundTrip.Plain.{stored, Fits, get_data-put_data}

module _ (s : Stream) (laws : StreamLaws s) (nodes : Nodes) (nodes_laws : NodesLaws nodes) where
  pub get_db_object-put_db_object :
      (fresh o : DbObjectData) (rest : List ℕ)
      → Fits fresh.data_ o.data_
      → s.can_stream o.address.id ≡ true
      → get_db_object s nodes fresh (put_db_object s nodes o ++ rest)
        ≡ (record o { data_ = stored o.data_ }, rest)
  unfolding get_db_object put_db_object
  get_db_object-put_db_object fresh o rest h k = rw (
    append_assoc (put_data s nodes o.data_) (put_address s o.address) rest,
    get_data-put_data s laws nodes nodes_laws fresh.data_ o.data_ (put_address s o.address ++ rest)
        h,
    get_address-put_address s laws o.address rest k,
  )

  pub get_delete_object-put_delete_object :
      (fresh o : DeleteObject) (rest : List ℕ)
      → Fits fresh.object.data_ o.object.data_
      → s.can_stream o.object.address.id ≡ true
      → o.token.duration < 2 ^ 31
      → get_delete_object s nodes fresh (put_delete_object s nodes o ++ rest)
        ≡ (record o { object = record o.object { data_ = stored o.object.data_ } }, rest)
  unfolding get_delete_object put_delete_object
  get_delete_object-put_delete_object fresh o rest h k l = rw (
    append_assoc (put_db_object s nodes o.object) (put_token s o.token) rest,
    get_db_object-put_db_object fresh.object o.object (put_token s o.token ++ rest) h k,
    get_token-put_token s laws o.token rest l,
  )

  pub get_network_member-put_network_member :
      (fresh m : AbstractNetworkMember) (rest : List ℕ)
      → Fits fresh.object.data_ m.object.data_
      → s.can_stream m.object.address.id ≡ true
      → IsInt32 m.trust
      → get_network_member s nodes fresh (put_network_member s nodes m ++ rest)
        ≡ (record m { object = record m.object { data_ = stored m.object.data_ } }, rest)
  unfolding get_network_member put_network_member
  get_network_member-put_network_member fresh m rest h k l = rw (
    append_assoc (put_db_object s nodes m.object)
        (s.byte_array.put m.authentication_data ++ s.i32.put m.trust) rest,
    append_assoc (s.byte_array.put m.authentication_data) (s.i32.put m.trust) rest,
    get_db_object-put_db_object fresh.object m.object
        (s.byte_array.put m.authentication_data ++ (s.i32.put m.trust ++ rest)) h k,
    laws.byte_array-Reads m.authentication_data (s.i32.put m.trust ++ rest),
    laws.i32-Reads m.trust l rest,
  )

  pub get_node_object-put_node_object :
      (fresh n : NodeObject) (rest : List ℕ)
      → Fits fresh.member.object.data_ n.member.object.data_
      → s.can_stream n.member.object.address.id ≡ true
      → IsInt32 n.member.trust
      → get_node_object s nodes fresh (put_node_object s nodes n ++ rest) ≡ (
        record n {
          member = record n.member {
            object = record n.member.object { data_ = stored n.member.object.data_ };
          };
        },
        rest,
      )
  unfolding get_node_object put_node_object
  get_node_object-put_node_object fresh n rest h k l = rw (
    append_assoc (put_network_member s nodes n.member) (put_node s nodes n.sender_id) rest,
    get_network_member-put_network_member fresh.member n.member
        (put_node s nodes n.sender_id ++ rest) h k l,
    get_node-put_node s laws nodes nodes_laws n.sender_id rest,
  )

  pub get_user_member-put_user_member :
      (fresh u : UserMember) (rest : List ℕ)
      → Fits fresh.member.object.data_ u.member.object.data_
      → s.can_stream u.member.object.address.id ≡ true
      → IsInt32 u.member.trust
      → u.token.duration < 2 ^ 31
      → get_user_member s nodes fresh (put_user_member s nodes u ++ rest) ≡ (
        record u {
          member = record u.member {
            object = record u.member.object { data_ = stored u.member.object.data_ };
          };
        },
        rest,
      )
  unfolding get_user_member put_user_member
  get_user_member-put_user_member fresh u rest h k l m = rw (
    append_assoc (put_network_member s nodes u.member) (put_token s u.token) rest,
    get_network_member-put_network_member fresh.member u.member (put_token s u.token ++ rest) h k l,
    get_token-put_token s laws u.token rest m,
  )

  pub get_auth_request-put_auth_request :
      (fresh r : AuthRequest) (rest : List ℕ)
      → Fits fresh.user.member.object.data_ r.user.member.object.data_
      → s.can_stream r.user.member.object.address.id ≡ true
      → IsInt32 r.user.member.trust
      → r.user.token.duration < 2 ^ 31
      → r.request < 2 ^ 8
      → get_auth_request s nodes fresh (put_auth_request s nodes r ++ rest) ≡ (
        record r {
          user = record r.user {
            member = record r.user.member {
              object = record r.user.member.object { data_ = stored r.user.member.object.data_ };
            };
          };
        },
        rest,
      )
  unfolding get_auth_request put_auth_request
  get_auth_request-put_auth_request fresh r rest h k l m n = rw (
    append_assoc (put_user_member s nodes r.user) (s.u8.put r.request) rest,
    get_user_member-put_user_member fresh.user r.user (s.u8.put r.request ++ rest) h k l m,
    laws.u8-Reads r.request n rest,
  )

  pub get_member_permision_object-put_member_permision_object :
      (fresh o : MemberPermisionObject) (rest : List ℕ)
      → s.can_stream o.key.id ≡ true
      → o.permision < 2 ^ 8
      → get_member_permision_object s nodes fresh (put_member_permision_object s nodes o ++ rest)
        ≡ (record o { object = fresh.object }, rest)
  unfolding get_member_permision_object put_member_permision_object
  get_member_permision_object-put_member_permision_object fresh o rest k l = rw (
    append_assoc (put_permision s o.key) (s.u8.put o.permision) rest,
    get_permision-put_permision s laws o.key (s.u8.put o.permision ++ rest) k,
    laws.u8-Reads o.permision l rest,
  )
