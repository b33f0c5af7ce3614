-- ===== src/KeyStorage/Lost.antt =====
-- keystorage.cpp: pairs that the list of geneses takes away, and keys that are not saved.
use qt_network_protocol.Prelude.{
  ℕ, ◌≡◌, ◌≢◌, refl, List, [], ◌∷◌, ◌++◌, Bool, true, false, ◌&&◌, Dict, nat_eq, contains, ==_iff,
  arith, lookup-insert,
}
use qt_network_protocol.KeyStorage.{
  CryptoPairKeys, no_pair, pair_is_valid, KeyStorage, Crypto, gen_key, set_genesis_list, key_value,
  save_storage, get_next_pair,
}

-- A key that is given as a genesis loses its pair; while the thread has not come to it, asking for
-- the key gives a pair that is not valid at once, whatever the thread would do during the wait.
pub get_next_pair-set_genesis_list :
    (crypto : Crypto) (key genesis : ℕ) (works : KeyStorage → KeyStorage) (s : KeyStorage)
    → key ≢ 0
    → genesis ≢ 0
    → s.key_pool_size ≢ 0
    → let given = set_genesis_list (key ∷ []) s in
      let answer = get_next_pair crypto key genesis (λ asked. asked) works given in
      (key_value key given ≡ no_pair) × (answer.1 ≡ no_pair) × (pair_is_valid answer.1 ≡ false)
unfolding get_next_pair set_genesis_list gen_key key_value contains pair_is_valid
get_next_pair-set_genesis_list crypto key genesis works s named from_genesis pool =
    let stored = lookup-insert key key no_pair s.keys in
    (
      ground (arith, stored, ==_iff key key),
      ground (arith, named, from_genesis, pool, stored, ==_iff key key),
      ground (arith, named, from_genesis, pool, stored, ==_iff key key),
    )

abbrev all_write : (ℕ → Bool) → Dict ℕ CryptoPairKeys → Bool
all_write writes [] = true
all_write writes ((key, _) ∷ rest) = writes key && all_write writes rest

abbrev key_names : Dict ℕ CryptoPairKeys → List ℕ
key_names [] = []
key_names ((key, _) ∷ rest) = key ∷ key_names rest

save_storage-false :
    (writes : ℕ → Bool) (keys : Dict ℕ CryptoPairKeys)
    → save_storage writes keys false ≡ ([], false)
unfolding save_storage
save_storage-false writes [] = refl
save_storage-false writes ((key, pair) ∷ rest) = ground (arith, save_storage-false writes rest)

-- Keys whose files can be written are saved up to the first whose file cannot, which is tried; the
-- keys behind it are not.
pub save_storage-first_failure :
    (writes : ℕ → Bool) (front behind : Dict ℕ CryptoPairKeys) (bad : ℕ) (pair : CryptoPairKeys)
    → all_write writes front ≡ true
    → writes bad ≡ false
    → save_storage writes (front ++ ((bad, pair) ∷ behind)) true
      ≡ (key_names front ++ (bad ∷ []), false)
unfolding save_storage
save_storage-first_failure writes [] behind bad pair ok h =
    ground (arith, h, save_storage-false writes behind)
save_storage-first_failure writes ((key, p) ∷ front) behind bad pair ok h =
    let rest = save_storage-first_failure writes front behind bad pair (ground (arith, ok)) h in
    ground (arith, ok, rest)
