-- ===== src/Packages/Clone/Kept.antt =====
-- What a clone keeps of the object.
use qt_network_protocol.Prelude.{◌≡◌, length, ◌==◌, if◌then◌else◌}
use qt_network_protocol.Stream.{Stream}
use qt_network_protocol.Database.Token.{no_token}
use qt_network_protocol.Packages.Classes.{
  AbstractData, NodeObject, PackageObject, delete_object, network_member, node_object, user_member,
  member_permision_object,
}
use qt_network_protocol.Packages.Clone.{Names, permision_hash}

-- The command of the class is stored.
abbrev pub IsInitialised : AbstractData → Type 0
IsInitialised d = d.stored_cmd ≡ d.class_cmd

module _ (names : Names) (s : Stream) where
  -- The id of a node is that of its key, if it has one.
  abbrev pub HasKeyId : NodeObject → Type 0
  HasKeyId n =
      (if length n.member.authentication_data == 0
        then n.member.object.address.id
        else names.key_id n.member.authentication_data)
      ≡ n.member.object.address.id

  -- The objects that a clone keeps: initialised ones, where the key of a node or of a permission is
  -- its id, and a remove request has no token. A request to sign in is not one of them.
  abbrev pub Kept : PackageObject s → Type 0
  Kept (delete_object o) = IsInitialised o.object.data_ × (o.token ≡ no_token)
  Kept (network_member m) = IsInitialised m.object.data_
  Kept (node_object n) = IsInitialised n.member.object.data_ × HasKeyId n
  Kept (user_member u) = IsInitialised u.member.object.data_
  Kept (member_permision_object o) =
      IsInitialised o.object.data_
      × (names.uint_id (permision_hash names s o.key) ≡ o.object.address.id)
  Kept _ = ⊥
