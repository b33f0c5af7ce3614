-- ===== src/Qt.antt =====
-- What the sources take from Qt and from the QuasarApp utilities: serialisation by QDataStream,
-- qHash, and the command numbers that H_16 gives to classes. The first record holds the operations,
-- the second what their documentation says and the proofs rely on. The third is a network: what
-- becomes of bytes that are handed to a socket.
use qt_network_protocol.Prelude.{ℕ, ◌^◌, ◌<◌, ◌≡◌, List, ◌++◌, Bool, length}
use qt_network_protocol.Package.{leading_reversed}

-- A QString, as its UTF-16 code units.
abbrev pub Text : Type 0
Text = List ℕ

pub record Qt : Type 0 where
  -- qHash(QByteArray)
  pub q_hash : List ℕ → ℕ
  -- QDataStream << and >> for quint16, quint8, bool and QString
  pub put_u16 : ℕ → List ℕ
  pub get_u16 : List ℕ → ℕ × List ℕ
  pub put_u8 : ℕ → List ℕ
  pub get_u8 : List ℕ → ℕ × List ℕ
  pub put_bool : Bool → List ℕ
  pub get_bool : List ℕ → Bool × List ℕ
  pub put_string : Text → List ℕ
  pub get_string : List ℕ → Text × List ℕ
  -- H_16<Ping>(), H_16<BadRequest>(), H_16<CloseConnection>()
  pub h16_ping : ℕ
  pub h16_bad_request : ℕ
  pub h16_close_connection : ℕ
  -- isValid of the package classes outside the library, by command and payload
  pub other_valid : ℕ → List ℕ → Bool

pub record QtLaws (qt : Qt) : Type 0 where
  -- A stream is read back as it was written.
  pub get-put_u16 :
      (n : ℕ) (rest : List ℕ) → n < 2 ^ 16 → qt.get_u16 (qt.put_u16 n ++ rest) ≡ (n, rest)
  pub get-put_u8 : (n : ℕ) (rest : List ℕ) → n < 2 ^ 8 → qt.get_u8 (qt.put_u8 n ++ rest) ≡ (n, rest)
  pub get-put_bool : (b : Bool) (rest : List ℕ) → qt.get_bool (qt.put_bool b ++ rest) ≡ (b, rest)
  pub get-put_string :
      (s : Text) (rest : List ℕ) → qt.get_string (qt.put_string s ++ rest) ≡ (s, rest)
  -- QDataStream is big-endian, and a quint16 takes two bytes.
  pub length-put_u16 : (n : ℕ) → length (qt.put_u16 n) ≡ 2
  pub leading-put_u16 :
      (n : ℕ) (rest : List ℕ) → n < 2 ^ 16 → leading_reversed (qt.put_u16 n ++ rest) ≡ n

pub record Network : Type 0 where
  -- QAbstractSocket::isValid, QAbstractSocket::waitForConnected, and whether `write` takes all bytes
  pub socket_is_valid : ℕ → Bool
  pub wait_for_connected : ℕ → Bool
  pub writes_all : ℕ → List ℕ → Bool
