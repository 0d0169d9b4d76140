-- ===== src/Gguf/Encode.antt =====
-- The metadata of a model file as the format's description has it, and what `inspect` shows of it:
-- the writer that the reader of backend/internal/ggufmeta is read against.
use llama_rack.Base.{
  ℕ, zero, suc, ◌+◌, ◌/◌, ◌%◌, ◌^◌, ◌≤◌, ◌<◌, ◌⊎◌, Bool, List, [], ◌∷◌, ◌++◌, ltb, if◌then◌else◌,
  length,
}
use llama_rack.Base.Int64.{Int64}
use llama_rack.Base.Text.{codes, format_int, format_natural}
use llama_rack.Base.Maps.{Map, put}
use llama_rack.Gguf.{Bytes, max_string_bytes, max_display_bytes, max_key_bytes}
use llama_rack.Gguf.Values.{Printer, Value, ellipsis, scalar_value}
use llama_rack.Gguf.Inspect.{Entry}

pub data Width : Type 0 where
  byte half word long : Width

pub data Scalar : Type 0 where
  unsigned : Width → ℕ → Scalar
  signed : Width → Int64 → Scalar
  single : ℕ → Scalar
  double : ℕ → Scalar
  boolean : Bool → Scalar
  text : Bytes → Scalar

pub record Item : Type 0 where
  pub key : Bytes
  pub scalar : Scalar

abbrev pub size_of : Width → ℕ
size_of byte = 1
size_of half = 2
size_of word = 4
size_of long = 8

-- The number of the type in a file.
abbrev pub type_id : Scalar → ℕ
type_id (unsigned byte n) = 0
type_id (unsigned half n) = 2
type_id (unsigned word n) = 4
type_id (unsigned long n) = 10
type_id (signed byte v) = 1
type_id (signed half v) = 3
type_id (signed word v) = 5
type_id (signed long v) = 11
type_id (single bits) = 6
type_id (boolean b) = 7
type_id (text s) = 8
type_id (double bits) = 12

-- The lowest byte first.
unfoldable pub put_uint : ℕ → ℕ → Bytes
put_uint zero n = []
put_uint (suc size) n = (n % 256) ∷ put_uint size (n / 256)

abbrev pub put_string : Bytes → Bytes
put_string s = put_uint 8 (length s) ++ s

abbrev pub put_scalar : Scalar → Bytes
put_scalar (unsigned w n) = put_uint (size_of w) n
put_scalar (signed w v) = put_uint (size_of w) (v % 256 ^ size_of w)
put_scalar (single bits) = put_uint 4 bits
put_scalar (double bits) = put_uint 8 bits
put_scalar (boolean b) = put_uint 1 (if b then 1 else 0)
put_scalar (text s) = put_string s

abbrev pub put_item : Item → Bytes
put_item i = put_string i.key ++ (put_uint 4 (type_id i.scalar) ++ put_scalar i.scalar)

unfoldable pub put_items : List Item → Bytes
put_items [] = []
put_items (i ∷ items) = put_item i ++ put_items items

unfoldable pub put_file : ℕ → ℕ → List Item → Bytes
unfolding put_items
put_file version tensor_count items =
    codes "GGUF"
    ++ (put_uint 4 version
        ++ (put_uint 8 tensor_count ++ (put_uint 8 (length items) ++ put_items items)))

-- A number of the width, a signed one as an `int64`.
abbrev pub IsScalar : Scalar → Type 0
IsScalar (unsigned w n) = n < 256 ^ size_of w
IsScalar (signed w v) =
    (v < 256 ^ size_of w / 2) ⊎ ((2 ^ 64 ≤ v + 256 ^ size_of w / 2) × (v < 2 ^ 64))
IsScalar (single bits) = bits < 2 ^ 32
IsScalar (double bits) = bits < 2 ^ 64
IsScalar (boolean b) = Unit
IsScalar (text s) = length s ≤ max_string_bytes

abbrev pub IsItem : Item → Type 0
IsItem i = (length i.key ≤ max_key_bytes) × IsScalar i.scalar

-- The first bytes of a string.
unfoldable pub take : ℕ → Bytes → Bytes
take zero s = []
take (suc n) [] = []
take (suc n) (b ∷ s) = b ∷ take n s

abbrev unsigned_name : Width → Bytes
unsigned_name byte = codes "uint8"
unsigned_name half = codes "uint16"
unsigned_name word = codes "uint32"
unsigned_name long = codes "uint64"

abbrev signed_name : Width → Bytes
signed_name byte = codes "int8"
signed_name half = codes "int16"
signed_name word = codes "int32"
signed_name long = codes "int64"

-- A string as it is shown.
abbrev pub shown_text : Bytes → Bytes
shown_text s = if ltb max_display_bytes (length s) then take max_display_bytes s ++ ellipsis else s

module _ (p : Printer) where
  abbrev pub shown : Scalar → Value
  shown (unsigned w n) = scalar_value (unsigned_name w) (format_natural n)
  shown (signed w v) = scalar_value (signed_name w) (format_int v)
  shown (single bits) = scalar_value (codes "float32") (p.float32 bits)
  shown (double bits) = scalar_value (codes "float64") (p.float64 bits)
  shown (boolean b) = scalar_value (codes "bool") (if b then codes "true" else codes "false")
  shown (text s) = record (scalar_value (codes "string") (shown_text s)) {
    truncated = ltb max_display_bytes (length s);
  }

  abbrev pub shown_entry : Item → Entry
  shown_entry i =
      let v = shown i.scalar in
      record {
        key = i.key;
        type_name = v.type_name;
        value = v.display;
        truncated = v.truncated;
        array_length = 0;
      }

  -- The bytes of keys and values that are kept.
  abbrev pub shown_bytes : List Item → ℕ
  shown_bytes [] = 0
  shown_bytes (i ∷ items) = length i.key + length (shown i.scalar).display + shown_bytes items

  -- The values by their keys; of one key the last one.
  abbrev pub shown_scalars : List Item → Map Bytes → Map Bytes
  shown_scalars [] m = m
  shown_scalars (i ∷ items) m = shown_scalars items (put i.key (shown i.scalar).display m)
