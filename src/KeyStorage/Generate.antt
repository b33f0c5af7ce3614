-- ===== src/KeyStorage/Generate.antt =====
-- keystorage.cpp: what the thread has done when it ends.
use qt_network_protocol.Prelude.{
  ℕ, suc, ◌≤◌, ◌≡◌, List, [], ◌∷◌, Bool, true, false, ◌&&◌, nat_eq, ◌==◌,
}
use qt_network_protocol.KeyStorage.{
  CryptoPairKeys, pair_is_valid, KeyStorage, Crypto, has_pair, pool_insert,
}

abbrev pub valid_pool : List CryptoPairKeys → Bool
valid_pool [] = true
valid_pool (p ∷ pool) = pair_is_valid p && valid_pool pool

-- A method whose pairs are valid, and whose pairs without a genesis never repeat.
pub record Generates (crypto : Crypto) : Type 0 where
  pub valid : (n genesis : ℕ) → pair_is_valid (crypto.generate n genesis) ≡ true
  pub differ : (n m : ℕ) → crypto.same (crypto.generate n 0) (crypto.generate m 0) ≡ (n == m)

-- The pool has valid pairs, none of which is generated again, and the thread is not stopped.
pub record Sound (crypto : Crypto) (s : KeyStorage) : Type 0 where
  pub pool_valid : valid_pool s.random_keys_pool ≡ true
  pub fresh :
      (n : ℕ) → s.generated ≤ n → has_pair crypto (crypto.generate n 0) s.random_keys_pool ≡ false
  pub running : s.stop_generator ≡ false

module _ (crypto : Crypto) (generates : Generates crypto) where
  -- One more random pair.
  abbrev more : KeyStorage → KeyStorage
  more s = record s {
    random_keys_pool = pool_insert crypto (crypto.generate s.generated 0) s.random_keys_pool;
    generated = suc s.generated;
  }
