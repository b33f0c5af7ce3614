-- ===== src/Tests/KeyTests.antt =====
-- The key storage at concrete inputs.
use qt_network_protocol.Prelude.{[], ◌∷◌, true, false, pos, nat_eq, get_or, ◌==◌}
use qt_network_protocol.KeyStorage.{KeyStorage, Crypto}

-- The nth pair has the number n in its private key.
abbrev crypto : Crypto
crypto = record {
  generate =
      λ n genesis. record { public_key = 1 ∷ []; priv_key = n ∷ genesis ∷ []; bits = pos 16 };
  same = λ p q. get_or p.priv_key 0 0 == get_or q.priv_key 0 0;
}

-- Two keys to make, one from a genesis, and room for three pairs.
abbrev storage : KeyStorage
storage = record {
  keys = (5, crypto.generate 0 9) ∷ [];
  random_keys_pool = [];
  generate_tasks = (6, 0) ∷ (7, 8) ∷ [];
  key_pool_size = 3;
  inited = true;
  stop_generator = false;
  generated = 1;
}
