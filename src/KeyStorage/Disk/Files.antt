-- ===== src/KeyStorage/Disk/Files.antt =====
-- The files that a storage saves, and as which keys they are loaded.
use qt_network_protocol.Prelude.{
  bytes_eq, bytes_eq_refl, bytes_eq_sound, Bool-cases, not, ◌&&◌, ◌||◌, ℕ, ◌≡◌, ◌∙◌, refl, List, [],
  ◌∷◌, Bool, true, false, some, Dict, nat_eq, lookup, insert, contains, lookup-insert,
  if◌then◌else◌, ◌==◌, ==_iff, arith, ap, sym, subst, inl, inr, ℕ_discrete,
}
use qt_network_protocol.Qt.{Text}
use qt_network_protocol.Stream.{Stream}
use qt_network_protocol.Packages.Fields.{put_pair}
use qt_network_protocol.KeyStorage.{CryptoPairKeys, KeyStorage, key_value}
use qt_network_protocol.KeyStorage.Disk.{
  Directory, FileSystem, to_storage, save_each, version_file, text_eq,
}

module _ (fs : FileSystem) where
  -- Every file can be written.
  abbrev pub AllWritable : Type 0
  AllWritable = (name : Text) → fs.writes name ≡ true

  -- The file of the key is not the version file, and toLatin1 keeps its name.
  abbrev pub IsNamed : ℕ → Type 0
  IsNamed key =
      (bytes_eq (fs.text_of key) version_file ≡ false) × (fs.from_latin1 (fs.text_of key) ≡ key)

  abbrev pub AllNamed : Dict ℕ CryptoPairKeys → Type 0
  AllNamed [] = Unit {0}
  AllNamed ((key, _) ∷ keys) = IsNamed key × AllNamed keys

  -- Whether one of the files is loaded as the key.
  unfoldable pub named : ℕ → Dict Text (List ℕ) → Bool
  named j [] = false
  named j ((name, _) ∷ files) =
      (not (bytes_eq name version_file) && (fs.from_latin1 name == j)) || named j files

  pub named-insert :
      (j : ℕ) (name : Text) (bytes : List ℕ) (files : Dict Text (List ℕ))
      → named j (insert name bytes files)
        ≡ ((not (bytes_eq name version_file) && (fs.from_latin1 name == j)) || named j files)
  unfolding named insert
  named-insert j name bytes [] = refl
  named-insert j name bytes ((other, b) ∷ files) = elim (Bool-cases (bytes_eq other name)) [
    | inl e ↦
        let same : other ≡ name = bytes_eq_sound other name e in
        ground (
          arith,
          e,
          ap (λ (n : Text). bytes_eq n version_file) same,
          ap (λ (n : Text). fs.from_latin1 n == j) same,
        )
    | inr e ↦ ground (arith, e, named-insert j name bytes files)
  ]

  same_file :
      (key j : ℕ) → IsNamed key → IsNamed j → bytes_eq (fs.text_of key) (fs.text_of j) ≡ (key == j)
  same_file key j n m = elim (ℕ_discrete key j) [
    | yes e ↦
        subst (λ (i : ℕ). bytes_eq (fs.text_of key) (fs.text_of i) ≡ (key == i)) e
          (bytes_eq_refl (fs.text_of key) ∙ sym ((==_iff key key).1 refl))
    | no d ↦ elim (Bool-cases (bytes_eq (fs.text_of key) (fs.text_of j))) [
      | inl e ↦
          absurd (
            d (
              sym n.1 ∙ ap fs.from_latin1 (bytes_eq_sound (fs.text_of key) (fs.text_of j) e) ∙ m.1))
      | inr e ↦ ground (arith, e, d, ==_iff key j)
    ]
  ]

  pub AllNamed-IsNamed :
      (keys : Dict ℕ CryptoPairKeys) (j : ℕ) → AllNamed keys → contains j keys ≡ true → IsNamed j
  unfolding contains lookup
  AllNamed-IsNamed [] j n h = absurd (ground (arith, h))
  AllNamed-IsNamed ((key, p) ∷ keys) j n h = elim (ℕ_discrete key j) [
    | yes e ↦ subst IsNamed e n.0
    | no d ↦ AllNamed-IsNamed keys j n.1 (ground (arith, h, d, ==_iff key j))
  ]

module _ (s : Stream) (fs : FileSystem) where
  pub save_each-files :
      (keys : Dict ℕ CryptoPairKeys) (k : KeyStorage) (d : Directory) (j : ℕ)
      → AllWritable fs
      → k.inited ≡ true
      → AllNamed fs keys
      → IsNamed fs j
      → lookup (fs.text_of j) (save_each s fs keys k d true).0.files ≡ (
          if contains j keys
          then some (put_pair s (key_value j k))
          else lookup (fs.text_of j) d.files)
  unfolding save_each to_storage contains lookup
  save_each-files [] k d j w i n m = ground arith
  save_each-files ((key, p) ∷ keys) k d j w i n m =
      let bytes = put_pair s (key_value key k) in
      let saved : Directory = record d { files = insert (fs.text_of key) bytes d.files } in
      ground (
        arith,
        i,
        w (fs.text_of key),
        save_each-files keys k saved j w i n.1 m,
        lookup-insert (fs.text_of key) (fs.text_of j) bytes d.files,
        same_file fs key j n.0 m,
        ==_iff key j,
      )

  -- Saving leaves the version file, and the files are then loaded as the keys that are saved.
  pub save_each-named :
      (keys : Dict ℕ CryptoPairKeys) (k : KeyStorage) (d : Directory) (j : ℕ)
      → AllWritable fs
      → k.inited ≡ true
      → AllNamed fs keys
      → let saved = (save_each s fs keys k d true).0 in
        (lookup version_file saved.files ≡ lookup version_file d.files)
        × (named fs j saved.files ≡ (contains j keys || named fs j d.files))
        × (saved.exists ≡ d.exists)
  unfolding save_each to_storage contains lookup
  save_each-named [] k d j w i n = (refl, refl, refl)
  save_each-named ((key, p) ∷ keys) k d j w i n =
      let bytes = put_pair s (key_value key k) in
      let saved : Directory = record d { files = insert (fs.text_of key) bytes d.files } in
      ground (
        arith,
        i,
        w (fs.text_of key),
        save_each-named keys k saved j w i n.1,
        lookup-insert (fs.text_of key) version_file bytes d.files,
        named-insert fs j (fs.text_of key) bytes d.files,
        n.0.0,
        n.0.1,
        ==_iff key j,
      )
