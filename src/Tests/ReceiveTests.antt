-- ===== src/Tests/ReceiveTests.antt =====
-- Package and the receiving loop at concrete inputs.
use qt_network_protocol.Prelude.{
  ◌≡◌, ◌⊎◌, refl, [], ◌∷◌, ◌++◌, true, false, some, none, arith, drop,
}
use qt_network_protocol.Package.{reset, header_is_valid, header_bytes, to_bytes, is_valid}
use qt_network_protocol.Receive.{no_data, avelable_bytes}
use qt_network_protocol.Receive.Whole.{frames, avelable_bytes-frames}
use qt_network_protocol.Receive.Split.{partial, avelable_bytes-split}
use qt_network_protocol.Receive.Stuck.{avelable_bytes-refused}
use qt_network_protocol.Receive.Bounds.{Fits, AllValid, rounds, avelable_bytes-AllValid}
use qt_network_protocol.Tests.Samples.{qt, ping_package, spoiled_package}

ping_is_valid : is_valid qt.q_hash ping_package ≡ true
unfolding is_valid
ping_is_valid = refl

spoiled_is_refused : is_valid qt.q_hash spoiled_package ≡ false
unfolding is_valid
spoiled_is_refused = refl

-- Two packages and the first five bytes of a third, of which the first three were held.
avelable_bytes-frames_example :
    avelable_bytes qt.q_hash 10
      (some (drop 3 (frames (ping_package ∷ ping_package ∷ []) ++ (3 ∷ 0 ∷ 7 ∷ 0 ∷ 235 ∷ []))))
      (record { pkg = reset; hdr_array = 3 ∷ 0 ∷ 7 ∷ [] })
    ≡ some (
      record { pkg = reset; hdr_array = 3 ∷ 0 ∷ 7 ∷ 0 ∷ 235 ∷ [] },
      ping_package ∷ ping_package ∷ [],
    )
unfolding to_bytes header_bytes
avelable_bytes-frames_example =
    avelable_bytes-frames qt.q_hash 10 (3 ∷ 0 ∷ 7 ∷ [])
      (drop 3 (frames (ping_package ∷ ping_package ∷ []) ++ (3 ∷ 0 ∷ 7 ∷ 0 ∷ 235 ∷ [])))
      (3 ∷ 0 ∷ 7 ∷ 0 ∷ 235 ∷ []) (ping_package ∷ ping_package ∷ []) (omega arith) (omega arith)
      (
        record { valid = ping_is_valid; in_range = omega arith },
        (record { valid = ping_is_valid; in_range = omega arith }, tt),
      )
      refl

-- The header and one byte of the data, then the other two bytes.
avelable_bytes-split_example :
    (avelable_bytes qt.q_hash 2 (some (header_bytes ping_package.hdr ++ (0 ∷ []))) no_data
      ≡ some (partial ping_package.hdr (0 ∷ []), []))
    × (avelable_bytes qt.q_hash 2 (some (7 ∷ 0 ∷ [])) (partial ping_package.hdr (0 ∷ []))
        ≡ some (partial ping_package.hdr (0 ∷ []), []))
unfolding header_is_valid
avelable_bytes-split_example =
    avelable_bytes-split qt.q_hash 2 ping_package.hdr (0 ∷ []) (7 ∷ 0 ∷ []) (omega arith)
      (omega arith) refl refl (omega arith)

avelable_bytes-refused_example :
    avelable_bytes qt.q_hash 1000 (some (to_bytes spoiled_package ++ (1 ∷ []))) no_data ≡ none
unfolding header_is_valid
avelable_bytes-refused_example =
    avelable_bytes-refused qt.q_hash 1000 spoiled_package (1 ∷ []) (omega arith)
      (record { header = refl; complete = refl; refused = spoiled_is_refused }) (omega arith)

-- A refused package with a byte behind it, on which the loop does not end.
avelable_bytes-AllValid_example :
    let so_far = rounds qt.q_hash 4 (to_bytes spoiled_package ++ (1 ∷ [])) 0 no_data in
    Fits so_far.0
    × AllValid qt.q_hash so_far.1
    × ((avelable_bytes qt.q_hash 4 (some (to_bytes spoiled_package ++ (1 ∷ []))) no_data ≡ none)
        ⊎ (avelable_bytes qt.q_hash 4 (some (to_bytes spoiled_package ++ (1 ∷ []))) no_data
            ≡ some so_far))
avelable_bytes-AllValid_example =
    avelable_bytes-AllValid qt.q_hash 4 (to_bytes spoiled_package ++ (1 ∷ [])) no_data (omega arith)
