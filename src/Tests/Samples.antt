-- ===== src/Tests/Samples.antt =====
-- A concrete Qt and a concrete network, with the laws that the proofs rely on, and sample values.
use qt_network_protocol.Prelude.{
  ℕ, ◌+◌, ◌*◌, ◌/◌, ◌%◌, ◌^◌, ◌<◌, ◌≡◌, refl, List, [], ◌∷◌, ◌++◌, Bool, true, false, not, length,
  take, drop, take-append, drop-append, arith, ◌==◌, some,
}
use qt_network_protocol.Package.{Package}
use qt_network_protocol.Qt.{Qt, QtLaws, Network, Text}
use qt_network_protocol.HostAddress.{HostAddress}
use qt_network_protocol.NodeInfo.{NodeInfo, Socket, initial, connected}
use qt_network_protocol.Node.State.{Node}

abbrev pub get_u16 : List ℕ → ℕ × List ℕ
get_u16 (x ∷ y ∷ rest) = (x * 256 + y, rest)
get_u16 bytes = (0, [])

abbrev pub get_u8 : List ℕ → ℕ × List ℕ
get_u8 (x ∷ rest) = (x, rest)
get_u8 [] = (0, [])

abbrev pub put_bool : Bool → List ℕ
put_bool true = 1 ∷ []
put_bool false = 0 ∷ []

abbrev pub get_bool : List ℕ → Bool × List ℕ
get_bool (x ∷ rest) = (not (x == 0), rest)
get_bool [] = (false, [])

abbrev pub get_string : List ℕ → Text × List ℕ
get_string (n ∷ rest) = (take n rest, drop n rest)
get_string [] = ([], [])

abbrev pub qt : Qt
qt = record {
  q_hash = λ bytes. length bytes + 1000;
  put_u16 = λ n. n / 256 ∷ n % 256 ∷ [];
  get_u16 = get_u16;
  put_u8 = λ n. n ∷ [];
  get_u8 = get_u8;
  put_bool = put_bool;
  get_bool = get_bool;
  put_string = λ s. length s ∷ s;
  get_string = get_string;
  h16_ping = 7;
  h16_bad_request = 8;
  h16_close_connection = 9;
  other_valid = λ _ _. true;
}

pub get-put_u16 :
    (n : ℕ) (rest : List ℕ) → n < 2 ^ 16 → qt.get_u16 (qt.put_u16 n ++ rest) ≡ (n, rest)
get-put_u16 n rest h = ground arith

pub get-put_bool : (b : Bool) (rest : List ℕ) → qt.get_bool (qt.put_bool b ++ rest) ≡ (b, rest)
get-put_bool true rest = refl
get-put_bool false rest = refl

pub get-put_string :
    (s : Text) (rest : List ℕ) → qt.get_string (qt.put_string s ++ rest) ≡ (s, rest)
get-put_string s rest =
    ground (arith, take-append (length s) s rest refl, drop-append (length s) s rest refl)

abbrev pub laws : QtLaws qt
laws = record {
  get-put_u16 = get-put_u16;
  get-put_u8 = λ n rest h. refl;
  get-put_bool = get-put_bool;
  get-put_string = get-put_string;
  length-put_u16 = λ n. refl;
  leading-put_u16 = λ n rest h. omega arith;
}

-- Every socket works.
abbrev pub net : Network
net = record {
  socket_is_valid = λ _. true;
  wait_for_connected = λ _. true;
  writes_all = λ _ _. true;
}

abbrev pub peer : HostAddress
peer = record { ip = 10; port = 3090 }

abbrev pub socket : Socket
socket = record { id = 1; peer = peer; is_open = true }

abbrev pub peer_info : NodeInfo
peer_info = record initial { network_address = peer; sct = some socket; status = connected }

abbrev pub node : Node
node = record {
  connections = (peer, peer_info) ∷ [];
  max_pending_connections = 30;
  is_listening = true;
  timers = [];
  sent = [];
  request_errors = [];
}

-- The package of a Ping with command 7.
abbrev pub ping_package : Package
ping_package = record {
  hdr = record { size = 3; command = 7; hash = 1003; trigger_hash = 0 };
  bytes = 0 ∷ 7 ∷ 0 ∷ [];
}

-- The same with a wrong hash.
abbrev pub spoiled_package : Package
spoiled_package = record {
  hdr = record { size = 3; command = 7; hash = 1004; trigger_hash = 0 };
  bytes = 0 ∷ 7 ∷ 0 ∷ [];
}
