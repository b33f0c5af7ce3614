-- ===== src/KeyStorage.antt =====
-- Heart/AbstractSpace/keystorage.h, keystorage.cpp and cryptopairkeys.cpp: the pool of key pairs.
--
-- A name of a key and a genesis are numbers, 0 for the empty ones; RAND_KEY is the empty genesis. A
-- pool size below 0 acts as 0 and is 0 here. The thread's work is a function of the state. The two
-- loops that may not end have fuel.
pub mod Generate
pub mod Disk
pub mod Tasks
pub mod Lost
use qt_network_protocol.Prelude.{
  ℕ, suc, zero, ◌%◌, List, [], ◌∷◌, ◌++◌, Bool, true, false, ◌&&◌, ◌||◌, not, Option, none, some,
  length, Dict, nat_eq, lookup, contains, insert, remove, if◌then◌else◌, ◌==◌, ltb, ℤ, pos, negsuc,
  bytes_eq,
}

-- CryptoPairKeys
pub record CryptoPairKeys : Type 0 where
  pub public_key : List ℕ
  pub priv_key : List ℕ
  pub bits : ℤ

-- CryptoPairKeys::CryptoPairKeys()
abbrev pub no_pair : CryptoPairKeys
no_pair = record { public_key = []; priv_key = []; bits = pos 0 }

-- `!(_bits % 8) && _bits > 1`
unfoldable pub bits_are_valid : ℤ → Bool
bits_are_valid (pos n) = (n % 8 == 0) && ltb 1 n
bits_are_valid (negsuc n) = false

-- CryptoPairKeys::isValid
unfoldable pub pair_is_valid : CryptoPairKeys → Bool
pair_is_valid p =
    not (length p.priv_key == 0) && (not (length p.public_key == 0) && bits_are_valid p.bits)

pub record KeyStorage : Type 0 where
  pub keys : Dict ℕ CryptoPairKeys
  -- a QSet, in the order of its iterator
  pub random_keys_pool : List CryptoPairKeys
  pub generate_tasks : Dict ℕ ℕ
  pub key_pool_size : ℕ
  pub inited : Bool
  pub stop_generator : Bool
  -- how many pairs were generated
  pub generated : ℕ

-- The crypto method: the pair that it generates as its nth from a genesis, and operator == of pairs.
pub record Crypto : Type 0 where
  pub generate : ℕ → ℕ → CryptoPairKeys
  pub same : CryptoPairKeys → CryptoPairKeys → Bool

-- KeyStorage::genKey
unfoldable pub gen_key : ℕ → ℕ → KeyStorage → KeyStorage × Bool
gen_key access_key genesis s =
    if access_key == 0
    then (s, false)
    else (record s { generate_tasks = insert access_key genesis s.generate_tasks }, true)

-- KeyStorage::setGenesisList
unfoldable pub set_genesis_list : List ℕ → KeyStorage → KeyStorage
set_genesis_list [] s = s
set_genesis_list (i ∷ list) s = set_genesis_list list (record s { keys = insert i no_pair s.keys })

-- `_keys.value(key, {})`
unfoldable pub key_value : ℕ → KeyStorage → CryptoPairKeys
key_value key s = elim (lookup key s.keys) [ none ↦ no_pair | some pair ↦ pair ]

-- KeyStorage::saveStorage, for whether a file can be written: the keys given to toStorage.
unfoldable pub save_storage : (ℕ → Bool) → Dict ℕ CryptoPairKeys → Bool → List ℕ × Bool
save_storage writes [] result = ([], result)
save_storage writes ((key, _) ∷ rest) result =
    let (others, done) = save_storage writes rest (result && writes key) in
    (if result then key ∷ others else others, done)

module _ (crypto : Crypto) where
  -- QSet::contains and insert
  unfoldable pub has_pair : CryptoPairKeys → List CryptoPairKeys → Bool
  has_pair pair [] = false
  has_pair pair (p ∷ pool) = crypto.same p pair || has_pair pair pool

  unfoldable pub pool_insert : CryptoPairKeys → List CryptoPairKeys → List CryptoPairKeys
  pool_insert pair pool = if has_pair pair pool then pool else pool ++ (pair ∷ [])

  -- A key that is generated from a genesis.
  unfoldable pub generate_for : ℕ → ℕ → KeyStorage → KeyStorage
  generate_for key genesis s = record s {
    keys = insert key (crypto.generate s.generated genesis) s.keys;
    generated = suc s.generated;
  }

  -- The body of the loop of generateKeysByTasks for a key without a valid pair.
  unfoldable pub make_key : ℕ → ℕ → KeyStorage → KeyStorage
  make_key key genesis s = elim s.random_keys_pool [
    | [] ↦ generate_for key genesis s
    | pair ∷ pool ↦
        if genesis == 0
        then record s { keys = insert key pair s.keys; random_keys_pool = pool }
        else generate_for key genesis s
  ]

  unfoldable pub make_missing : ℕ → ℕ → KeyStorage → KeyStorage
  make_missing key genesis s =
      if not (pair_is_valid (key_value key s)) then make_key key genesis s else s

  unfoldable pub do_task : ℕ → ℕ → KeyStorage → KeyStorage
  do_task key genesis s =
      let made = make_missing key genesis s in
      record made { generate_tasks = remove key made.generate_tasks }

  -- KeyStorage::generateKeysByTasks over a copy of the tasks
  unfoldable pub generate_keys_by_tasks : Dict ℕ ℕ → KeyStorage → KeyStorage
  generate_keys_by_tasks [] s = s
  generate_keys_by_tasks ((key, genesis) ∷ tasks) s =
      let next = generate_keys_by_tasks tasks (do_task key genesis s) in
      if s.stop_generator then s else next

  -- KeyStorage::generateRandomKeys for the size read at its start; none when the fuel is used up
  unfoldable pub generate_random_keys : ℕ → ℕ → KeyStorage → Option KeyStorage
  generate_random_keys zero size s =
      if ltb (length s.random_keys_pool) size && not s.stop_generator then none else some s
  generate_random_keys (suc fuel) size s =
      let rest = generate_random_keys fuel size (record s {
        random_keys_pool = pool_insert (crypto.generate s.generated 0) s.random_keys_pool;
        generated = suc s.generated;
      }) in
      if ltb (length s.random_keys_pool) size && not s.stop_generator then rest else some s

  -- The condition of the loop of run
  unfoldable pub has_work : KeyStorage → Bool
  has_work s =
      (not (length s.generate_tasks == 0) || ltb (length s.random_keys_pool) s.key_pool_size)
      && not s.stop_generator

  -- KeyStorage::run, with fuel for its loop and for that of generateRandomKeys
  unfoldable pub run : ℕ → ℕ → KeyStorage → Option KeyStorage
  run zero fuel s = if has_work s then none else some s
  run (suc rounds) fuel s =
      let tasks_done = generate_keys_by_tasks s.generate_tasks s in
      let next : Option KeyStorage = elim (generate_random_keys fuel s.key_pool_size tasks_done) [
        | none ↦ none
        | some filled ↦ run rounds fuel filled
      ] in
      if has_work s then next else some s

  -- KeyStorage::getNextPair: `early` and `works` are what the thread does to the state before the
  -- first look of the wait, and in its time.
  unfoldable pub get_next_pair :
      ℕ
      → ℕ
      → (KeyStorage → KeyStorage)
      → (KeyStorage → KeyStorage)
      → KeyStorage
      → KeyStorage × CryptoPairKeys
  get_next_pair access_key genesis early works s =
      if not s.inited && genesis == 0
      then (s, no_pair)
      else if s.key_pool_size == 0
      then (s, no_pair)
      else (let (asked, done) = gen_key access_key genesis s in
          if not done
          then (asked, no_pair)
          else (let started = early asked in
              let waited = if contains access_key started.keys then started else works started in
              if not (contains access_key waited.keys)
              then (waited, no_pair)
              else (waited, key_value access_key waited)))
