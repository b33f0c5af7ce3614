-- ===== src/Tests/DiskTests.antt =====
-- The files of the key storage and the table of keys at concrete inputs.
use qt_network_protocol.Prelude.{ℕ, ◌≡◌, [], ◌∷◌, true, false, none, nat_eq, pos}
use qt_network_protocol.Qt.{Text}
use qt_network_protocol.KeyStorage.{CryptoPairKeys, KeyStorage}
use qt_network_protocol.KeyStorage.Disk.{FileSystem}
use qt_network_protocol.CacheKey.{key_of_hash, register_all, description, key_of_hash-register_all}

-- The key n has the name "k" and the character n.
abbrev number_of : Text → ℕ
number_of (_ ∷ n ∷ _) = n
number_of _ = 0

abbrev fs : FileSystem
fs = record {
  writes = λ name. true;
  makes_path = true;
  text_of = λ key. 107 ∷ key ∷ [];
  from_latin1 = number_of;
}

abbrev pair : CryptoPairKeys
pair = record { public_key = 1 ∷ []; priv_key = 2 ∷ 3 ∷ []; bits = pos 16 }

abbrev storage : KeyStorage
storage = record {
  keys = (5, pair) ∷ [];
  random_keys_pool = [];
  generate_tasks = [];
  key_pool_size = 0;
  inited = true;
  stop_generator = false;
  generated = 0;
}

abbrev fresh : KeyStorage
fresh = record storage { keys = []; inited = false }

abbrev text_hash : Text → ℕ
text_hash text = elim text [ [] ↦ 0 | c ∷ _ ↦ c ]

key_of_hash-register_all_example :
    (key_of_hash text_hash 65 (register_all text_hash ((65 ∷ []) ∷ (66 ∷ []) ∷ []) []) ≡ none)
    × (description text_hash
          (λ text. text)
          65
          (register_all text_hash ((65 ∷ []) ∷ (66 ∷ []) ∷ []) [])
        ≡ [])
key_of_hash-register_all_example =
    key_of_hash-register_all text_hash ((65 ∷ []) ∷ (66 ∷ []) ∷ []) (λ text. text) 65
