-- ===== src/CacheKey.antt =====
-- Heart/DataBaseSpace/dbcachekey.h and dbcachekey.cpp: the table of the keys of the cache, by their
-- hashes.
--
-- K stands for the classes of keys, with the hash and toString of a key.
use qt_network_protocol.Prelude.{
  ℕ, ◌≡◌, refl, List, [], ◌∷◌, Option, none, some, Dict, nat_eq, lookup, contains, insert,
  if◌then◌else◌,
}
use qt_network_protocol.Qt.{Text}

module _ {K : Type 0} (hash : K → ℕ) where
  -- DBCacheKey::key, by which HASH_KEY is written
  unfoldable pub register_key : K → Dict ℕ K → Dict ℕ K × ℕ
  register_key value data_ =
      (if contains (hash value) data_ then insert (hash value) value data_ else data_, hash value)

  -- DBCacheKey::value
  unfoldable pub key_of_hash : ℕ → Dict ℕ K → Option K
  key_of_hash h data_ = lookup h data_

  -- DBCacheKey::description
  unfoldable pub description : (K → Text) → ℕ → Dict ℕ K → Text
  description to_string h data_ = elim (key_of_hash h data_) [ none ↦ [] | some k ↦ to_string k ]

  -- The table after HASH_KEY of some keys
  unfoldable pub register_all : List K → Dict ℕ K → Dict ℕ K
  register_all [] data_ = data_
  register_all (k ∷ ks) data_ = register_all ks (register_key k data_).0

  -- Whichever keys were hashed since the start, the table has no key of any hash, and a description
  -- is empty.
  pub key_of_hash-register_all :
      (keys : List K) (to_string : K → Text) (h : ℕ)
      → (key_of_hash h (register_all keys []) ≡ none)
        × (description to_string h (register_all keys []) ≡ [])
  unfolding register_all register_key key_of_hash description contains lookup
  key_of_hash-register_all [] to_string h = (refl, refl)
  key_of_hash-register_all (k ∷ ks) to_string h = key_of_hash-register_all ks to_string h
