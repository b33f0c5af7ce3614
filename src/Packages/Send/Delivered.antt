-- ===== src/Packages/Send/Delivered.antt =====
-- Which objects become packages, and what the receiver reads.
use qt_network_protocol.Prelude.{
  sym, append_assoc, ℕ, ◌≡◌, ◌≢◌, List, [], ◌∷◌, ◌++◌, true, false, none, some, length, arith,
  append-nil, take, ap, subst,
}
use qt_network_protocol.Stream.{Stream, StreamLaws}
use qt_network_protocol.Package.{Package, is_valid, header_is_valid, leading_reversed, leading}
use qt_network_protocol.Packages.Fields.{Nodes, put_permision}
use qt_network_protocol.Packages.ReadBack.{NodesLaws}
use qt_network_protocol.Packages.Classes.{
  PackageObject, MemberPermisionObject, member_permision_object,
}
use qt_network_protocol.Packages.Write.{put_package_object, put_member_permision_object}
use qt_network_protocol.Packages.Read.{get_package_object}
use qt_network_protocol.Packages.RoundTrip.{
  CanSend, received, get_package_object-put_package_object,
}
use qt_network_protocol.Packages.Rows.{Variants}
use qt_network_protocol.Packages.Send.{base, filled, object_to_package, object_from_package}

module _ (q_hash : List ℕ → ℕ) (variants : Variants) (s : Stream) (laws : StreamLaws s)
    (nodes : Nodes) where
  -- Two bytes that are 0 in front of a list are its leading two.
  leading-take :
      (bytes rest : List ℕ)
      → take 2 bytes ≡ 0 ∷ 0 ∷ []
      → (leading (bytes ++ rest) ≡ 0)
        × (leading_reversed (bytes ++ rest) ≡ 0)
        × (length (bytes ++ rest) ≢ 0)
  leading-take [] rest h = absurd (ground (arith, h))
  leading-take (x ∷ []) rest h = absurd (ground (arith, h))
  leading-take (x ∷ y ∷ bytes) rest h = ground (arith, h)

  is_valid-zeros :
      (p : Package) (bytes rest : List ℕ)
      → take 2 bytes ≡ 0 ∷ 0 ∷ []
      → p.bytes ≡ bytes ++ rest
      → is_valid q_hash p ≡ false
  unfolding is_valid header_is_valid
  is_valid-zeros p bytes rest h e =
      let zeros : (leading p.bytes ≡ 0) × (leading_reversed p.bytes ≡ 0) × (length p.bytes ≢ 0) =
        subst (λ (l : List ℕ). (leading l ≡ 0) × (leading_reversed l ≡ 0) × (length l ≢ 0)) (sym e)
          (leading-take bytes rest h) in
      ground (arith, zeros.0, zeros.1, zeros.2)

  -- A permission object never becomes a package: its stream begins with the type of the member's id
  -- in place of the command.
  pub object_to_package-member_permision_object :
      (o : MemberPermisionObject) (trigger_hash : ℕ)
      → object_to_package q_hash variants s nodes (member_permision_object o) trigger_hash ≡ none
  unfolding object_to_package filled is_valid header_is_valid put_package_object
      put_member_permision_object put_permision base
  object_to_package-member_permision_object o t =
      let kind : List ℕ = s.variant.put o.key.id in
      let behind : List ℕ = s.string.put o.key.address_hash ++ s.u8.put o.permision in
      let whole : put_package_object s nodes (member_permision_object o) ≡ kind ++ behind =
        append_assoc kind (s.string.put o.key.address_hash) (s.u8.put o.permision) in
      let invalid : is_valid q_hash (filled q_hash variants s nodes (member_permision_object o) t)
          ≡ false =
        is_valid-zeros (filled q_hash variants s nodes (member_permision_object o) t) kind behind
          (laws.take-put_variant o.key.id) whole in
      ground (arith, invalid)

  module _ (nodes_laws : NodesLaws nodes) where
    -- The package that an object of one of the classes becomes is read by a fresh object of its class
    -- as that object, with its command stored.
    pub object_from_package-object_to_package :
        (fresh x : PackageObject s) (trigger_hash : ℕ) (p : Package)
        → CanSend s fresh x
        → object_to_package q_hash variants s nodes x trigger_hash ≡ some p
        → object_from_package q_hash variants s nodes p fresh ≡ some (received s fresh x)
    unfolding object_to_package object_from_package filled is_valid header_is_valid
    object_from_package-object_to_package fresh x t p h e =
        let same : p ≡ filled q_hash variants s nodes x t = ground (arith, e) in
        let bytes : p.bytes ≡ put_package_object s nodes x = ap (λ (q : Package). q.bytes) same in
        let valid : is_valid q_hash p ≡ true = ground (arith, e, same) in
        let some_bytes : length p.bytes ≢ 0 = ground (arith, valid, same) in
        let whole : get_package_object s nodes fresh (put_package_object s nodes x)
            ≡ some (received s fresh x, []) =
          subst (λ (l : List ℕ). get_package_object s nodes fresh l ≡ some (received s fresh x, []))
            (append-nil (put_package_object s nodes x))
            (get_package_object-put_package_object s laws nodes nodes_laws fresh x [] h) in
        let read : get_package_object s nodes fresh p.bytes ≡ some (received s fresh x, []) =
          subst (λ (l : List ℕ). get_package_object s nodes fresh l ≡ some (received s fresh x, []))
            (sym bytes) whole in
        ground (arith, some_bytes, read)
