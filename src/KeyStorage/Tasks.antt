-- ===== src/KeyStorage/Tasks.antt =====
-- keystorage.cpp: the keys that were asked for.
use qt_network_protocol.Prelude.{
  ℕ, ◌≡◌, true, none, Dict, nat_eq, lookup, contains, if◌then◌else◌, ◌==◌,
}
use qt_network_protocol.KeyStorage.{pair_is_valid, KeyStorage, Crypto, key_value}
use qt_network_protocol.KeyStorage.Generate.{Generates, Sound}

module _ (crypto : Crypto) (generates : Generates crypto) where
  -- What making a key does: the key has a valid pair, and valid keys stay so.
  record Made (key : ℕ) (s d : KeyStorage) : Type 0 where
    sound : Sound crypto d
    made : pair_is_valid (key_value key d) ≡ true
    kept : (j : ℕ) → pair_is_valid (key_value j s) ≡ true → pair_is_valid (key_value j d) ≡ true
    tasks : d.generate_tasks ≡ s.generate_tasks
    limit : d.key_pool_size ≡ s.key_pool_size

  -- What a task does, besides.
  record Done (key : ℕ) (s d : KeyStorage) : Type 0 where
    sound : Sound crypto d
    made : pair_is_valid (key_value key d) ≡ true
    kept : (j : ℕ) → pair_is_valid (key_value j s) ≡ true → pair_is_valid (key_value j d) ≡ true
    tasks :
        (j : ℕ) → lookup j d.generate_tasks ≡ (if key == j then none else lookup j s.generate_tasks)
    limit : d.key_pool_size ≡ s.key_pool_size

  -- What carrying out a list of tasks does: those keys have valid pairs, and are no tasks.
  record AllDone (ts : Dict ℕ ℕ) (s d : KeyStorage) : Type 0 where
    sound : Sound crypto d
    kept : (j : ℕ) → pair_is_valid (key_value j s) ≡ true → pair_is_valid (key_value j d) ≡ true
    made : (j : ℕ) → contains j ts ≡ true → pair_is_valid (key_value j d) ≡ true
    tasks :
        (j : ℕ)
        → lookup j d.generate_tasks ≡ (if contains j ts then none else lookup j s.generate_tasks)
    limit : d.key_pool_size ≡ s.key_pool_size
