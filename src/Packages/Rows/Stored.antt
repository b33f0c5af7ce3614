-- ===== src/Packages/Rows/Stored.antt =====
-- A member that is written to its table and read back.
use qt_network_protocol.Prelude.{
  ℕ, ◌≡◌, ◌<◌, ◌^◌, List, [], ◌∷◌, true, arith, append-nil, length, ℤ, ap, refl, sym, ◌∙◌,
  length-append, pos,
}
use qt_network_protocol.Stream.{Stream, StreamLaws, IsInt32}
use qt_network_protocol.Sql.{byte_array}
use qt_network_protocol.Database.Token.{AccessToken}
use qt_network_protocol.Packages.Fields.{token_of_bytes, put_token, get_token}
use qt_network_protocol.Packages.ReadBack.{get_token-put_token}
use qt_network_protocol.Packages.Classes.{UserMember}
use qt_network_protocol.Packages.Rows.{
  Variants, columns, user_variant_map, user_from_sql_record, user_is_valid, member_from_sql_record,
  object_from_sql_record, network_member_is_valid, value, column, member_variant_map,
  object_is_valid, is_insert_primary_key,
}

-- What QVariant gives back of what it was made from, as the SQL driver returns it.
pub record VariantsLaws (variants : Variants) : Type 0 where
  pub id_of-id_variant : (id : ℕ) → variants.id_of (variants.id_variant id) ≡ id
  pub to_int-int_variant : (n : ℤ) → IsInt32 n → variants.to_int (variants.int_variant n) ≡ n
  pub to_byte_array-byte_array :
      (bytes : List ℕ) → variants.to_byte_array (byte_array bytes) ≡ bytes

module _ (s : Stream) (laws : StreamLaws s) where
  token_of_bytes_lem :
      (bytes : List ℕ) → 0 < length bytes → token_of_bytes s bytes ≡ (get_token s bytes).0
  unfolding token_of_bytes
  token_of_bytes_lem [] h = absurd (omega arith)
  token_of_bytes_lem (b ∷ bytes) h = refl

  length-put_token : (t : AccessToken) → 0 < length (put_token s t)
  unfolding put_token
  length-put_token t = omega (
    arith,
    length-append (s.byte_array.put t.bytes) (s.i32.put (pos t.duration)),
    laws.length-put_i32 (pos t.duration),
  )

  token_of_bytes-put_token :
      (t : AccessToken) → t.duration < 2 ^ 31 → token_of_bytes s (put_token s t) ≡ t
  token_of_bytes-put_token t h =
      token_of_bytes_lem (put_token s t) (length-put_token t)
      ∙ ap (λ (bytes : List ℕ). (get_token s bytes).0) (sym (append-nil (put_token s t)))
      ∙ ap (λ (read : AccessToken × List ℕ). read.0) (get_token-put_token s laws t [] h)

  module _ (variants : Variants) (variants_laws : VariantsLaws variants) where
    -- A valid user whose trust is an int and whose token ends before 2^31, inserted in the table and
    -- read back into any user of the same table and command, is the same user, and reading succeeds.
    pub user_from_sql_record-columns :
        (fresh u : UserMember)
        → user_is_valid variants s u ≡ true
        → IsInt32 u.member.trust
        → u.token.duration < 2 ^ 31
        → fresh.member.object.data_ ≡ u.member.object.data_
        → fresh.member.object.address.table ≡ u.member.object.address.table
        → user_from_sql_record variants s fresh (columns (user_variant_map variants s u))
          ≡ (u, true)
    unfolding columns user_variant_map user_is_valid network_member_is_valid member_variant_map
        object_is_valid is_insert_primary_key user_from_sql_record member_from_sql_record
        object_from_sql_record value column
    user_from_sql_record-columns fresh u v t d c e = ground (
      arith,
      token_of_bytes-put_token u.token d,
      variants_laws.id_of-id_variant u.member.object.address.id,
      variants_laws.to_int-int_variant u.member.trust t,
      variants_laws.to_byte_array-byte_array u.member.authentication_data,
      variants_laws.to_byte_array-byte_array (put_token s u.token),
      v,
      c,
      e,
    )
