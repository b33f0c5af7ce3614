-- ===== src/Data.antt =====
-- Heart/AbstractSpace/packages/abstractdata.h and abstractdata.cpp with ping, badrequest and
-- closeconnection beside them, and streambase.cpp: the objects that travel in packages.
--
-- The class hierarchy is one data type, `Content`, with a constructor for each class of the abstract
-- level; `other` stands for the classes of the levels above and of applications, by its command
-- number and the bytes of its members.
pub mod ToPackage
pub mod RoundTrip
use qt_network_protocol.Prelude.{
  ℕ, ◌%◌, ◌^◌, List, [], ◌∷◌, ◌++◌, Bool, true, false, ◌&&◌, not, Option, none, some, length, ◌==◌,
  if◌then◌else◌,
}
use qt_network_protocol.Qt.{Text, Qt}
use qt_network_protocol.Package.{Package, Header, header_reset, is_valid}

pub data Content : Type 0 where
  -- Ping, with _ansver
  ping : Bool → Content
  -- BadRequest, with _errCode and _err
  bad_request : ℕ → Text → Content
  close_connection : Content
  other : ℕ → List ℕ → Content

-- AbstractData, with its member _cmd.
pub record Data : Type 0 where
  pub stored_cmd : ℕ
  pub content : Content

-- The constructors set _cmd to 0.
abbrev pub create : Content → Data
create c = record { stored_cmd = 0; content = c }

module _ (qt : Qt) where
  -- AbstractData::generateCmd
  unfoldable pub generate_cmd : Content → ℕ
  generate_cmd (ping _) = qt.h16_ping
  generate_cmd (bad_request _ _) = qt.h16_bad_request
  generate_cmd close_connection = qt.h16_close_connection
  generate_cmd (other h _) = h

  -- AbstractData::cmd
  unfoldable pub cmd : Data → ℕ
  unfolding generate_cmd
  cmd d = if not (d.stored_cmd == 0) then d.stored_cmd else generate_cmd d.content

  -- What isValid of the class asks beyond AbstractData::isValid.
  unfoldable pub members_valid : Content → Bool
  members_valid (other h bytes) = qt.other_valid h bytes
  members_valid _ = true

  -- isValid of the class
  unfoldable pub data_is_valid : Data → Bool
  unfolding members_valid
  data_is_valid d = not (cmd d == 0) && members_valid d.content

  -- AbstractData::init, of the classes derived from AbstractData
  unfoldable pub init : Data → Data × Bool
  init d = (record d { stored_cmd = generate_cmd d.content }, true)

  -- AbstractData::prepareToSend
  unfoldable pub prepare_to_send : Data → Data × Bool
  prepare_to_send d = if data_is_valid d then (d, true) else init d

  -- The members, as toStream of the class writes them behind the command.
  unfoldable pub put_content : Content → List ℕ
  put_content (ping ansver) = qt.put_bool ansver
  put_content (bad_request code err) = qt.put_u8 code ++ qt.put_string err
  put_content close_connection = []
  put_content (other h bytes) = bytes

  -- AbstractData::toStream and the overrides, by StreamBase::toBytes
  unfoldable pub data_bytes : Data → List ℕ
  data_bytes d = qt.put_u16 (cmd d) ++ put_content d.content

  -- fromStream of the class: the members of the object are overwritten.
  unfoldable pub get_content : Content → List ℕ → Content
  get_content (ping _) stream = ping (qt.get_bool stream).0
  get_content (bad_request _ _) stream =
      let (code, rest) = qt.get_u8 stream in bad_request code (qt.get_string rest).0
  get_content close_connection stream = close_connection
  get_content (other h _) stream = other h stream

  -- StreamBase::fromBytes
  unfoldable pub from_bytes : List ℕ → Data → Data × Bool
  from_bytes [] d = (d, false)
  from_bytes (b ∷ bytes) d =
      let (c, rest) = qt.get_u16 (b ∷ bytes) in
      (record { stored_cmd = c; content = get_content d.content rest }, true)

  -- AbstractData::fromPakcage
  unfoldable pub from_package : Package → Data → Data
  from_package p d = (from_bytes p.bytes d).0

  -- The package that AbstractData::toPackage fills in.
  unfoldable pub packed : Data → ℕ → Package
  packed d trigger_hash =
      let bytes = data_bytes d in
      record {
        hdr = record {
          size = length bytes % 2 ^ 16;
          command = cmd d;
          hash = qt.q_hash bytes % 2 ^ 32;
          trigger_hash = trigger_hash;
        };
        bytes = bytes;
      }

  -- AbstractData::toPackage; the package, where the source returns true.
  unfoldable pub to_package : Data → ℕ → Option Package
  to_package d trigger_hash =
      if not (data_is_valid d)
      then none
      else if is_valid qt.q_hash (packed d trigger_hash)
      then some (packed d trigger_hash)
      else none
