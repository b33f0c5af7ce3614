-- ===== src/KeyStorage/Disk.antt =====
-- keystorage.cpp: the files of the key storage.
--
-- A directory is its files by name: the version file and one for each key, whose name is the key.
-- `Stream` has the streams that the files are written with; whether a file can be opened is a
-- parameter, and so is what a key is as a QString.
pub mod Files
pub mod Saved
use qt_network_protocol.Prelude.{
  ℕ, List, [], ◌∷◌, Bool, true, false, ◌&&◌, not, Option, none, some, Dict, nat_eq, lookup, insert,
  bytes_eq, bytes_eq_sound, bytes_eq_refl, if◌then◌else◌, Eq, ◌≡◌, ◌↔◌, subst,
}
use qt_network_protocol.Qt.{Text}
use qt_network_protocol.Stream.{Stream}
use qt_network_protocol.Packages.Fields.{put_pair, get_pair}
use qt_network_protocol.KeyStorage.{CryptoPairKeys, KeyStorage, key_value, pair_is_valid}

pub bytes_eq_iff : (a b : Text) → (bytes_eq a b ≡ true) ↔ (a ≡ b)
bytes_eq_iff a b =
    (λ e. bytes_eq_sound a b e, λ e. subst (λ (t : Text). bytes_eq a t ≡ true) e (bytes_eq_refl a))

instance abbrev pub text_eq : Eq Text
text_eq = record { beq = bytes_eq; beq_iff = bytes_eq_iff }

-- VERSION_FILE, "version"
abbrev pub version_file : Text
version_file = 118 ∷ 101 ∷ 114 ∷ 115 ∷ 105 ∷ 111 ∷ 110 ∷ []

pub record Directory : Type 0 where
  pub exists : Bool
  pub files : Dict Text (List ℕ)

-- Whether a file can be opened for writing, and whether mkpath works; the text of a key, and the key
-- whose text the QString of a file name's toLatin1() is.
pub record FileSystem : Type 0 where
  pub writes : Text → Bool
  pub makes_path : Bool
  pub text_of : ℕ → Text
  pub from_latin1 : Text → ℕ

module _ (s : Stream) (fs : FileSystem) where
  -- KeyStorage::toStorage
  unfoldable pub to_storage : ℕ → KeyStorage → Directory → Directory × Bool
  to_storage key k d =
      if not k.inited
      then (d, false)
      else if not (fs.writes (fs.text_of key))
      then (d, false)
      else (
        record d { files = insert (fs.text_of key) (put_pair s (key_value key k)) d.files },
        true,
      )

  -- The loop of saveStorage over the keys; `result && toStorage(...)` stops at the first failure.
  unfoldable pub save_each :
      Dict ℕ CryptoPairKeys → KeyStorage → Directory → Bool → Directory × Bool
  save_each [] k d result = (d, result)
  save_each ((key, _) ∷ rest) k d result =
      let (d', done) = to_storage key k d in
      let saved = save_each rest k d' done in
      let skipped = save_each rest k d false in if result then saved else skipped

  -- KeyStorage::saveStorage
  unfoldable pub save_to_directory : KeyStorage → Directory → Directory × Bool
  save_to_directory k d = save_each k.keys k d true

  -- KeyStorage::fromStorage
  unfoldable pub from_storage : ℕ → Directory → KeyStorage → KeyStorage × Bool
  from_storage key d k = elim (lookup (fs.text_of key) d.files) [
    | none ↦ (k, false)
    | some bytes ↦
        let pair = (get_pair s bytes).0 in
        (record k { keys = insert key pair k.keys }, pair_is_valid pair)
  ]

  -- KeyStorage::loadAllKeysFromStorage over the files of the directory
  unfoldable pub load_each : Dict Text (List ℕ) → Directory → KeyStorage → KeyStorage
  load_each [] d k = k
  load_each ((name, _) ∷ rest) d k =
      load_each rest d
        (if not (bytes_eq name version_file) then (from_storage (fs.from_latin1 name) d k).0 else k)

  -- KeyStorage::initStorageLocation, for the name of the crypto method
  unfoldable pub init_storage_location : Text → Directory → Directory × Bool
  init_storage_location method d =
      if not d.exists
      then if not fs.makes_path
        then (d, false)
        else if not (fs.writes version_file)
        then (record d { exists = true }, false)
        else (
          record d { exists = true; files = insert version_file (s.string.put method) d.files },
          true,
        )
      else elim (lookup version_file d.files) [
        | none ↦ (d, false)
        | some bytes ↦ (d, bytes_eq method (s.string.get bytes).0)
      ]

  -- KeyStorage::initDefaultStorageLocation
  unfoldable pub init_default_storage_location :
      Text → Directory → KeyStorage → (Directory × KeyStorage) × Bool
  init_default_storage_location method d k =
      let (d', done) = init_storage_location method d in
      if not done
      then ((d', k), false)
      else ((d', record (load_each d'.files d' k) { inited = true }), true)
