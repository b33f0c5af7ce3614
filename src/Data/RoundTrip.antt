-- ===== src/Data/RoundTrip.antt =====
-- Sending an object in a package and reading it back.
use qt_network_protocol.Prelude.{
  ℕ, ◌^◌, ◌<◌, ◌≡◌, refl, List, [], ◌∷◌, ◌++◌, length, length-append, arith, append-nil,
}
use qt_network_protocol.Qt.{Qt, QtLaws}
use qt_network_protocol.Data.{
  Data, Content, ping, bad_request, close_connection, other, cmd, data_bytes, put_content,
  get_content, from_bytes, from_package, packed,
}

-- Two objects of one class; the error code of the second, if it has one, is a byte.
abbrev pub SameClass : Content → Content → Type 0
SameClass (ping _) (ping _) = Unit {0}
SameClass (bad_request _ _) (bad_request c _) = c < 2 ^ 8
SameClass close_connection close_connection = Unit {0}
SameClass (other h _) (other k _) = h ≡ k
SameClass _ _ = ⊥

module _ (qt : Qt) (laws : QtLaws qt) where
  get-put_content :
      (fresh c : Content) → SameClass fresh c → get_content qt fresh (put_content qt c) ≡ c
  unfolding get_content put_content
  get-put_content (ping _) (ping b) s = rw (← append-nil (qt.put_bool b), laws.get-put_bool b [])
  get-put_content (bad_request _ _) (bad_request c e) s = ground (
    arith,
    laws.get-put_u8 c (qt.put_string e),
    laws.get-put_string e [],
    append-nil (qt.put_string e),
  )
  get-put_content close_connection close_connection s = refl
  get-put_content (other h _) (other k bytes) s = rw s
  get-put_content _ _ s = absurd s

  from_bytes_lem :
      (bytes rest : List ℕ) (d : Data) (c : ℕ)
      → 0 < length bytes
      → qt.get_u16 bytes ≡ (c, rest)
      → (from_bytes qt bytes d).0
        ≡ record { stored_cmd = c; content = get_content qt d.content rest }
  unfolding from_bytes
  from_bytes_lem [] rest d c n e = absurd (omega arith)
  from_bytes_lem (b ∷ bytes) rest d c n e = ground arith

  -- The package of an object with a 16-bit command, read into any object of the same class, gives
  -- back the command and the members (an error code being a byte).
  pub from_package-packed :
      (d fresh : Data) (trigger_hash : ℕ)
      → cmd qt d < 2 ^ 16
      → SameClass fresh.content d.content
      → from_package qt (packed qt d trigger_hash) fresh
        ≡ record { stored_cmd = cmd qt d; content = d.content }
  unfolding from_package packed data_bytes
  from_package-packed d fresh t h s = ground (
    arith,
    from_bytes_lem (qt.put_u16 (cmd qt d) ++ put_content qt d.content) (put_content qt d.content)
        fresh (cmd qt d),
    length-append (qt.put_u16 (cmd qt d)) (put_content qt d.content),
    laws.length-put_u16 (cmd qt d),
    laws.get-put_u16 (cmd qt d) (put_content qt d.content) h,
    get-put_content fresh.content d.content s,
  )
