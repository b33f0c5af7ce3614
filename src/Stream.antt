-- ===== src/Stream.antt =====
-- QDataStream: what the classes of the packages take from Qt to write and read their members.
--
-- `Stream` holds the operators << and >> of Qt's types and of its containers, `StreamLaws` what
-- their documentation says of a value that is written and read back. A QSet is an abstract type.
use qt_network_protocol.Prelude.{
  ℕ, ◌^◌, ◌<◌, ◌≤ℤ◌, ◌<ℤ◌, ◌≡◌, List, [], ◌∷◌, ◌++◌, Bool, true, ℤ, pos, negsuc, length, take, ◌/◌,
  ◌%◌,
}
use qt_network_protocol.Qt.{Text}

-- operator << and operator >> of a type
pub record Codec (A : Type 0) : Type 0 where
  pub put : A → List ℕ
  pub get : List ℕ → A × List ℕ

-- A value that is written is read back, with the rest of the stream.
abbrev pub Reads : {A : Type 0} → Codec A → A → Type 0
Reads codec x = (rest : List ℕ) → codec.get (codec.put x ++ rest) ≡ (x, rest)

-- A predicate of all the elements of a list.
abbrev pub AllOf : {A : Type 0} → (A → Type 0) → List A → Type 0
AllOf P [] = Unit {0}
AllOf P (x ∷ xs) = P x × AllOf P xs

-- The values of a 32-bit int.
abbrev pub IsInt32 : ℤ → Type 0
IsInt32 n = (negsuc 2147483647 ≤ℤ n) × (n <ℤ pos 2147483648)

pub record Stream : Type 1 where
  -- quint8, quint16, quint32, qint32, bool, QString, QByteArray, QVariant and QHostAddress
  pub u8 : Codec ℕ
  pub u16 : Codec ℕ
  pub u32 : Codec ℕ
  pub i32 : Codec ℤ
  pub boolean : Codec Bool
  pub string : Codec Text
  pub byte_array : Codec (List ℕ)
  pub variant : Codec ℕ
  pub host : Codec ℕ
  -- QList<T>, and QSet of numbers, with contains, isEmpty, insert and remove
  pub q_list : {A : Type 0} → Codec A → Codec (List A)
  pub QSet : Type 0
  pub contains : QSet → ℕ → Bool
  pub is_empty : QSet → Bool
  pub inserted : ℕ → QSet → QSet
  pub removed : ℕ → QSet → QSet
  pub q_set : Codec ℕ → Codec QSet
  -- whether the type in a QVariant has stream operators
  pub can_stream : ℕ → Bool

pub record StreamLaws (s : Stream) : Type 1 where
  pub u8-Reads : (n : ℕ) → n < 2 ^ 8 → Reads s.u8 n
  pub u16-Reads : (n : ℕ) → n < 2 ^ 16 → Reads s.u16 n
  pub u32-Reads : (n : ℕ) → n < 2 ^ 32 → Reads s.u32 n
  pub i32-Reads : (n : ℤ) → IsInt32 n → Reads s.i32 n
  -- A qint32 takes four bytes, and a quint16 is written with its high byte first.
  pub length-put_i32 : (n : ℤ) → length (s.i32.put n) ≡ 4
  pub put_u16-bytes : (n : ℕ) → n < 2 ^ 16 → s.u16.put n ≡ n / 256 ∷ n % 256 ∷ []
  pub boolean-Reads : (b : Bool) → Reads s.boolean b
  pub string-Reads : (text : Text) → Reads s.string text
  pub byte_array-Reads : (bytes : List ℕ) → Reads s.byte_array bytes
  pub variant-Reads : (v : ℕ) → s.can_stream v ≡ true → Reads s.variant v
  -- A QVariant begins with the quint32 of its type, whose high half is 0.
  pub take-put_variant : (v : ℕ) → take 2 (s.variant.put v) ≡ 0 ∷ 0 ∷ []
  pub host-Reads : (ip : ℕ) → Reads s.host ip
  -- A container is read back if its elements are.
  pub list-Reads :
      {A : Type 0}
      → (codec : Codec A) (xs : List A) → AllOf (Reads codec) xs
      → Reads (s.q_list codec) xs
  pub set-Reads :
      (codec : Codec ℕ) (xs : s.QSet)
      → ((x : ℕ) → s.contains xs x ≡ true → Reads codec x)
      → Reads (s.q_set codec) xs
