-- ===== src/Tests/PackageSamples.antt =====
-- A concrete QDataStream with the laws that the proofs rely on, and what the packages take from Qt.
use qt_network_protocol.Prelude.{
  ℕ, zero, suc, ◌/◌, ◌%◌, ◌≡◌, refl, List, [], ◌∷◌, ◌++◌, Bool, true, false, ◌||◌, length,
  append_assoc, arith, ◌==◌, ℤ, pos, negsuc,
}
use qt_network_protocol.Stream.{Codec, Stream, StreamLaws, Reads, AllOf}
use qt_network_protocol.Packages.Fields.{Nodes}
use qt_network_protocol.Packages.ReadBack.{NodesLaws}
use qt_network_protocol.Tests.Samples.{
  get_u16, get_u8, put_bool, get_bool, get_string, get-put_u16, get-put_bool, get-put_string,
}

abbrev number : Codec ℕ
number = record { put = λ n. n ∷ []; get = get_u8 }

abbrev words : Codec ℕ
words = record { put = λ n. n / 256 ∷ n % 256 ∷ []; get = get_u16 }

abbrev put_i32 : ℤ → List ℕ
put_i32 (pos n) = 0 ∷ n ∷ 0 ∷ 0 ∷ []
put_i32 (negsuc n) = 1 ∷ n ∷ 0 ∷ 0 ∷ []

abbrev get_i32 : List ℕ → ℤ × List ℕ
get_i32 (zero ∷ n ∷ _ ∷ _ ∷ rest) = (pos n, rest)
get_i32 (suc _ ∷ n ∷ _ ∷ _ ∷ rest) = (negsuc n, rest)
get_i32 _ = (pos 0, [])

abbrev texts : Codec (List ℕ)
texts = record { put = λ s. length s ∷ s; get = get_string }

abbrev get_variant : List ℕ → ℕ × List ℕ
get_variant (_ ∷ _ ∷ v ∷ rest) = (v, rest)
get_variant _ = (0, [])

abbrev put_all : {A : Type 0} → Codec A → List A → List ℕ
put_all codec [] = []
put_all codec (x ∷ xs) = codec.put x ++ put_all codec xs

abbrev get_all : {A : Type 0} → Codec A → ℕ → List ℕ → List A × List ℕ
get_all codec zero stream = ([], stream)
get_all codec (suc n) stream =
    let (x, rest) = codec.get stream in let (xs, left) = get_all codec n rest in (x ∷ xs, left)

abbrev get_list : {A : Type 0} → Codec A → List ℕ → List A × List ℕ
get_list codec [] = ([], [])
get_list codec (n ∷ stream) = get_all codec n stream

abbrev lists : {A : Type 0} → Codec A → Codec (List A)
lists codec = record { put = λ xs. length xs ∷ put_all codec xs; get = get_list codec }

abbrev has : List ℕ → ℕ → Bool
has [] y = false
has (x ∷ xs) y = (x == y) || has xs y

abbrev without : ℕ → List ℕ → List ℕ
without y [] = []
without y (x ∷ xs) = let rest = without y xs in elim (x == y) [ true ↦ rest | false ↦ x ∷ rest ]

abbrev pub stream : Stream
stream = record {
  u8 = number;
  u16 = words;
  u32 = number;
  i32 = record { put = put_i32; get = get_i32 };
  boolean = record { put = put_bool; get = get_bool };
  string = texts;
  byte_array = texts;
  variant = record { put = λ v. 0 ∷ 0 ∷ v ∷ []; get = get_variant };
  host = number;
  q_list = λ {A} codec. lists codec;
  QSet = List ℕ;
  contains = has;
  is_empty = λ xs. length xs == 0;
  inserted = λ x xs. elim (has xs x) [ true ↦ xs | false ↦ x ∷ xs ];
  removed = without;
  q_set = λ codec. lists codec;
  can_stream = λ v. true;
}

pub get_all-put_all :
    {A : Type 0}
    → (codec : Codec A) (xs : List A) → AllOf (Reads codec) xs
    → (rest : List ℕ) → get_all codec (length xs) (put_all codec xs ++ rest) ≡ (xs, rest)
get_all-put_all codec [] h rest = refl
get_all-put_all codec (x ∷ xs) h rest = rw (
  append_assoc (codec.put x) (put_all codec xs) rest,
  h.0 (put_all codec xs ++ rest),
  get_all-put_all codec xs h.1 rest,
)

pub all-Reads :
    (codec : Codec ℕ) (xs : List ℕ)
    → ((x : ℕ) → has xs x ≡ true → Reads codec x)
    → AllOf (Reads codec) xs
all-Reads codec [] h = tt
all-Reads codec (x ∷ xs) h =
    (h x (ground arith), all-Reads codec xs (λ y m. h y (ground (arith, m))))

pub i32-Reads : (n : ℤ) (rest : List ℕ) → get_i32 (put_i32 n ++ rest) ≡ (n, rest)
i32-Reads (pos n) rest = refl
i32-Reads (negsuc n) rest = refl

pub length-put_i32 : (n : ℤ) → length (put_i32 n) ≡ 4
length-put_i32 (pos n) = refl
length-put_i32 (negsuc n) = refl

abbrev pub stream_laws : StreamLaws stream
stream_laws = record {
  u8-Reads = λ n h rest. refl;
  u16-Reads = λ n h rest. get-put_u16 n rest h;
  u32-Reads = λ n h rest. refl;
  i32-Reads = λ n h rest. i32-Reads n rest;
  length-put_i32 = length-put_i32;
  put_u16-bytes = λ n h. refl;
  boolean-Reads = λ b rest. get-put_bool b rest;
  string-Reads = λ text rest. get-put_string text rest;
  byte_array-Reads = λ bytes rest. get-put_string bytes rest;
  variant-Reads = λ v h rest. refl;
  take-put_variant = λ v. refl;
  host-Reads = λ ip rest. refl;
  list-Reads = λ {A} codec xs h rest. get_all-put_all codec xs h rest;
  set-Reads = λ codec xs h rest. get_all-put_all codec xs (all-Reads codec xs h) rest;
}

-- The node 0 has no identity, the others one byte of it.
abbrev raw : ℕ → List ℕ
raw zero = []
raw (suc n) = n ∷ []

abbrev node_of : List ℕ → ℕ
node_of [] = 0
node_of (n ∷ rest) = suc n

abbrev pub nodes : Nodes
nodes = record { raw = raw; node = node_of }

pub node-raw : (n : ℕ) → node_of (raw n) ≡ n
node-raw zero = refl
node-raw (suc n) = refl

abbrev pub nodes_laws : NodesLaws nodes
nodes_laws = record { node-raw = node-raw }
