-- ===== src/Gguf.antt =====
-- backend/internal/ggufmeta: the reader of the metadata of a model file. Strings are lists of bytes
-- here. A read that meets the end of the input fails with one error, where Go has `io.EOF` and
-- `io.ErrUnexpectedEOF`.
pub mod Values
pub mod Trim
pub mod Inspect
pub mod Encode
pub mod RoundTrip
pub mod Bounds
use llama_rack.Base.{
  ℕ, zero, suc, ◌+◌, ◌-◌, ◌*◌, Bool, false, Option, none, some, List, [], ◌∷◌, ltb, if◌then◌else◌,
  length,
}

abbrev pub Bytes : Type 0
Bytes = List ℕ

pub data Error : Type 0 where
  end_of_input : Error
  budget_exceeded : Error
  invalid_magic : Error
  unsupported_version : ℕ → Error
  unreasonable_count : Error
  unreasonable_key : Error
  unreasonable_string : Error
  unreasonable_array : Error
  nested_array : Error
  array_too_large : Error
  unsupported_element : ℕ → Error
  unsupported_value : ℕ → Error
  unreasonable_dimensions : Error
  dimensions_incomplete : Error
  in_entry : Bytes → Error → Error

abbrev pub max_metadata_count : ℕ
max_metadata_count = 4096

abbrev pub max_array_count : ℕ
max_array_count = 10_000_000

abbrev pub max_string_bytes : ℕ
max_string_bytes = 16 * 1024 * 1024

abbrev pub max_display_bytes : ℕ
max_display_bytes = 4096

abbrev pub max_key_bytes : ℕ
max_key_bytes = 64 * 1024

abbrev pub max_array_preview : ℕ
max_array_preview = 16

abbrev pub max_retained_metadata_bytes : ℕ
max_retained_metadata_bytes = 2 * 1024 * 1024

abbrev pub max_metadata_section_bytes : ℕ
max_metadata_section_bytes = 64 * 1024 * 1024

-- The bytes that are left, whether `countingReader` meters them, and `metadataBudget`.
pub record Source : Type 0 where
  pub input : Bytes
  pub metered : Bool
  pub consumed : ℕ
  pub retained : ℕ

-- A value and the source behind it, or an error, which ends the reading.
pub data Parsed (A : Type 0) : Type 0 where
  failed : Error → Parsed A
  done : A → Source → Parsed A

-- A computation that reads.
abbrev pub Reader : Type 0 → Type 0
Reader A = Source → Parsed A

infixl 5 ◌>>=◌
abbrev pub ◌>>=◌ : {A B : Type 0} → Reader A → (A → Reader B) → Reader B
◌>>=◌ m f s = elim (m s) [ failed e ↦ failed e | done a s' ↦ f a s' ]

abbrev pub return : {A : Type 0} → A → Reader A
return a s = done a s

abbrev pub fail : {A : Type 0} → Error → Reader A
fail e s = failed e

-- The errors that reading a value gives under a key.
abbrev pub under_key : {A : Type 0} → Bytes → Reader A → Reader A
under_key key m s = elim (m s) [ failed e ↦ failed (in_entry key e) | done a s' ↦ done a s' ]

-- The first `n` bytes and the rest, if there are as many.
unfoldable pub split_bytes : ℕ → Bytes → Option (Bytes × Bytes)
split_bytes zero bytes = some ([], bytes)
split_bytes (suc n) [] = none
split_bytes (suc n) (b ∷ bytes) = elim (split_bytes n bytes) [
  | none ↦ none
  | some (front, rest) ↦ some (b ∷ front, rest)
]

-- io.ReadFull, and `skipBytes` for what it drops: `n` bytes, within the budget where it is metered.
-- A metered read past the budget meets the end of the input first, or else the budget.
unfoldable pub read_full : ℕ → Reader Bytes
read_full n s =
    let left = max_metadata_section_bytes - s.consumed in
    let over = if s.metered then ltb left n else false in
    let got : Parsed Bytes = elim (split_bytes n s.input) [
      | none ↦ failed end_of_input
      | some (front, rest) ↦
          done front
            (record s { input = rest; consumed = if s.metered then s.consumed + n else s.consumed })
    ] in
    if over
    then if ltb (length s.input) left then failed end_of_input else failed budget_exceeded
    else got

unfoldable pub skip_bytes : ℕ → Reader (Unit {0})
skip_bytes n = do _ ← read_full n; return tt

-- b[0] + b[1] * 256 + ...
unfoldable pub little_endian : Bytes → ℕ
little_endian [] = 0
little_endian (b ∷ bytes) = b + 256 * little_endian bytes

unfoldable pub read_uint : ℕ → Reader ℕ
unfolding little_endian
read_uint size = do bytes ← read_full size; return (little_endian bytes)

unfoldable pub read_u32 : Reader ℕ
unfolding read_uint
read_u32 = read_uint 4

unfoldable pub read_u64 : Reader ℕ
unfolding read_uint
read_u64 = read_uint 8

-- budget.retain
unfoldable pub retain : ℕ → Reader (Unit {0})
retain n s =
    if ltb max_retained_metadata_bytes n
    then failed budget_exceeded
    else if ltb (max_retained_metadata_bytes - n) s.retained
    then failed budget_exceeded
    else done tt (record s { retained = s.retained + n })
