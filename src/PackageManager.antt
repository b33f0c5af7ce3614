-- ===== src/PackageManager.antt =====
-- Heart/AbstractSpace/packagemanager.h and packagemanager.cpp: the archive of processed packages.
--
-- The owned pointers are values, the table _parseResults an association list; `now` is time(nullptr).
pub mod Archive
use qt_network_protocol.Prelude.{
  ℕ, ◌<◌, List, [], ◌∷◌, Bool, true, false, ◌||◌, not, Option, none, some, length, Dict, nat_eq,
  lookup, contains, insert, if◌then◌else◌, ltb, ◌==◌,
}
use qt_network_protocol.Package.{Package}

-- PackaData
pub record PackaData : Type 0 where
  pub parse_result : ℕ
  pub pkg : Package

pub record PackageManager : Type 0 where
  -- _processTime, in the order of its keys
  pub process_time : List (ℕ × ℕ)
  pub parse_results : Dict ℕ PackaData

-- PackageManager::contains
unfoldable pub in_arhive : ℕ → PackageManager → Bool
in_arhive id m = contains id m.parse_results

-- PackageManager::getPkgFromArhive
unfoldable pub get_pkg_from_arhive : ℕ → PackageManager → Option Package
get_pkg_from_arhive id m = elim (lookup id m.parse_results) [ none ↦ none | some d ↦ some d.pkg ]

-- QMultiMap::insert puts an entry before those with the same key.
unfoldable pub multi_insert : ℕ → ℕ → List (ℕ × ℕ) → List (ℕ × ℕ)
multi_insert t id [] = (t, id) ∷ []
multi_insert t id ((u, j) ∷ rest) =
    let behind = multi_insert t id rest in
    if ltb u t then (u, j) ∷ behind else (t, id) ∷ (u, j) ∷ rest

-- `_processTime.erase(_processTime.begin())`
abbrev pub erase_first : List (ℕ × ℕ) → List (ℕ × ℕ)
erase_first [] = []
erase_first (_ ∷ rest) = rest

-- The limit is PACKAGE_CACHE_SIZE of config.h.
module _ (package_cache_size : ℕ) where
  -- PackageManager::processed
  unfoldable pub process : ℕ → Package → ℕ → PackageManager → PackageManager
  process now pkg result m =
      if pkg.hdr.hash == 0 || package_cache_size == 0
      then m
      else (let kept =
            if ltb package_cache_size (length m.parse_results)
            then erase_first m.process_time
            else m.process_time in
          record {
            process_time = multi_insert now pkg.hdr.hash kept;
            parse_results =
                insert pkg.hdr.hash (record { parse_result = result; pkg = pkg }) m.parse_results;
          })
