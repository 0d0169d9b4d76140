-- ===== src/Gguf/Values.antt =====
-- backend/internal/ggufmeta/ggufmeta.go: keys, strings and values.
use llama_rack.Base.{
  ℕ, zero, suc, ◌+◌, ◌-◌, ◌*◌, ◌/◌, ◌^◌, Bool, true, false, ◌||◌, Option, none, some, List, [], ◌∷◌,
  ◌++◌, ltb, ◌==◌, if◌then◌else◌,
}
use llama_rack.Base.Int64.{Int64}
use llama_rack.Base.Text.{codes, format_int, format_natural}
use llama_rack.Gguf.{
  Bytes, Reader, ◌>>=◌, return, fail, read_full, skip_bytes, read_uint, read_u32, read_u64,
  max_string_bytes, max_display_bytes, max_key_bytes, max_array_count, max_array_preview,
  unreasonable_key, unreasonable_string, unreasonable_array, nested_array, array_too_large,
  unsupported_element, unsupported_value,
}

-- strconv.FormatFloat of the number with these bits, and strconv.Quote.
pub record Printer : Type 0 where
  pub float32 : ℕ → Bytes
  pub float64 : ℕ → Bytes
  pub quote : Bytes → Bytes

pub record Value : Type 0 where
  pub type_name : Bytes
  pub display : Bytes
  pub truncated : Bool
  pub array_length : ℕ
  pub scalar : Bool

-- "…" in UTF-8.
abbrev pub ellipsis : Bytes
ellipsis = 0xe2 ∷ 0x80 ∷ 0xa6 ∷ []

-- int64(int8(u)) and the like, for a number of `width` bits.
unfoldable pub sign_extend : ℕ → ℕ → Int64
sign_extend width u = if ltb u (2 ^ (width - 1)) then u else u + (2 ^ 64 - 2 ^ width)

unfoldable pub read_int : ℕ → Reader Int64
unfolding sign_extend
read_int size = do u ← read_uint size; return (sign_extend (8 * size) u)

unfoldable pub read_key : Reader Bytes
read_key = do n ← read_u64; if ltb max_key_bytes n then fail unreasonable_key else read_full n

-- The shown bytes of a string, and whether some are left out.
unfoldable pub read_string : Reader (Bytes × Bool)
read_string = do
  n ← read_u64
  let long = ltb max_display_bytes n
  let taken = if long then max_display_bytes else n
  let rest : Reader (Bytes × Bool) = do
    shown ← read_full taken
    _ ← if long then skip_bytes (n - taken) else return tt
    return (if long then shown ++ ellipsis else shown, long)
  if ltb max_string_bytes n then fail unreasonable_string else rest

unfoldable pub fixed_size : ℕ → Option ℕ
fixed_size id =
    if id == 0 || id == 1 || id == 7
    then some 1
    else if id == 2 || id == 3
    then some 2
    else if id == 4 || id == 5 || id == 6
    then some 4
    else if id == 10 || id == 11 || id == 12
    then some 8
    else none

unfoldable pub type_name : ℕ → Option Bytes
type_name id =
    if id == 0
    then some (codes "uint8")
    else if id == 1
    then some (codes "int8")
    else if id == 2
    then some (codes "uint16")
    else if id == 3
    then some (codes "int16")
    else if id == 4
    then some (codes "uint32")
    else if id == 5
    then some (codes "int32")
    else if id == 6
    then some (codes "float32")
    else if id == 7
    then some (codes "bool")
    else if id == 8
    then some (codes "string")
    else if id == 10
    then some (codes "uint64")
    else if id == 11
    then some (codes "int64")
    else if id == 12
    then some (codes "float64")
    else none

abbrev pub scalar_value : Bytes → Bytes → Value
scalar_value name display = record {
  type_name = name;
  display = display;
  truncated = false;
  array_length = 0;
  scalar = true;
}

-- `readUint` and `readInt` with `scalarResult`.
unfoldable pub unsigned_value : Bytes → ℕ → Reader Value
unsigned_value name size = do v ← read_uint size; return (scalar_value name (format_natural v))

unfoldable pub signed_value : Bytes → ℕ → Reader Value
signed_value name size = do v ← read_int size; return (scalar_value name (format_int v))

unfoldable pub bool_value : Reader Value
bool_value = do
  v ← read_uint 1
  return (scalar_value (codes "bool") (if v == 0 then codes "false" else codes "true"))

unfoldable pub string_value : Reader Value
string_value = do
  (shown, long) ← read_string
  return (record (scalar_value (codes "string") shown) { truncated = long })

unfoldable pub float_value : (ℕ → Bytes) → Bytes → ℕ → Reader Value
float_value format name size = do bits ← read_uint size; return (scalar_value name (format bits))

unfoldable pub skip_string : Reader (Unit {0})
skip_string = do
  n ← read_u64
  if ltb max_string_bytes n then fail unreasonable_string else skip_bytes n

unfoldable pub skip_value : ℕ → Reader (Unit {0})
skip_value id = elim (fixed_size id) [
  | some size ↦ skip_bytes size
  | none ↦ if id == 8 then skip_string else fail (unsupported_element id)
]

unfoldable pub skip_values : ℕ → ℕ → Reader (Unit {0})
skip_values id zero = return tt
skip_values id (suc n) = do _ ← skip_value id; skip_values id n

unfoldable pub skip_array_remainder : ℕ → ℕ → Reader (Unit {0})
skip_array_remainder id remaining = elim (fixed_size id) [
  | some size ↦
      if ltb ((2 ^ 63 - 1) / size) remaining
      then fail array_too_large
      else skip_bytes (remaining * size)
  | none ↦ skip_values id remaining
]

-- strings.Join with a comma and a space.
unfoldable pub join_list : List Bytes → Bytes
join_list [] = []
join_list (part ∷ []) = part
join_list (part ∷ next ∷ parts) = part ++ (b',' ∷ b' ' ∷ join_list (next ∷ parts))

unfoldable pub display_array : List Bytes → ℕ → ℕ → Bytes
display_array preview shown count =
    let more = ellipsis ++ (b' ' ∷ (format_natural (count - shown) ++ codes " more")) in
    let separated = if shown == 0 then more else b',' ∷ b' ' ∷ more in
    b'[' ∷ (join_list preview ++ ((if ltb shown count then separated else []) ++ (b']' ∷ [])))

module _ (p : Printer) where
  -- `readValue` at any type but an array's.
  unfoldable pub read_scalar : ℕ → Reader Value
  read_scalar id =
      if id == 0
      then unsigned_value (codes "uint8") 1
      else if id == 1
      then signed_value (codes "int8") 1
      else if id == 2
      then unsigned_value (codes "uint16") 2
      else if id == 3
      then signed_value (codes "int16") 2
      else if id == 4
      then unsigned_value (codes "uint32") 4
      else if id == 5
      then signed_value (codes "int32") 4
      else if id == 6
      then float_value p.float32 (codes "float32") 4
      else if id == 7
      then bool_value
      else if id == 8
      then string_value
      else if id == 10
      then unsigned_value (codes "uint64") 8
      else if id == 11
      then signed_value (codes "int64") 8
      else if id == 12
      then float_value p.float64 (codes "float64") 8
      else fail (unsupported_value id)

  -- The shown elements, and whether one of them is cut.
  unfoldable pub read_preview : ℕ → ℕ → Reader (List Bytes × Bool)
  read_preview id zero = return ([], false)
  read_preview id (suc n) = do
    value ← read_scalar id
    (rest, cut) ← read_preview id n
    return
        ((if id == 8 then p.quote value.display else value.display) ∷ rest, value.truncated || cut)

  unfoldable pub read_elements : ℕ → ℕ → Bytes → Reader Value
  read_elements id count name = do
    let shown = if ltb max_array_preview count then max_array_preview else count
    (preview, cut) ← read_preview id shown
    _ ← if shown == count then return tt else skip_array_remainder id (count - shown)
    return (record {
      type_name = codes "array<" ++ (name ++ codes ">");
      display = display_array preview shown count;
      truncated = ltb shown count || cut;
      array_length = count;
      scalar = false;
    })

  unfoldable pub read_array_of : ℕ → ℕ → Reader Value
  read_array_of id count =
      if ltb max_array_count count
      then fail unreasonable_array
      else if id == 9
      then fail nested_array
      else elim (type_name id) [
        | none ↦ fail (unsupported_element id)
        | some name ↦ read_elements id count name
      ]

  unfoldable pub read_array : Reader Value
  read_array = do id ← read_u32; count ← read_u64; read_array_of id count

  unfoldable pub read_value : ℕ → Reader Value
  read_value id = if id == 9 then read_array else read_scalar id
