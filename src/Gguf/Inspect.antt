-- ===== src/Gguf/Inspect.antt =====
-- backend/internal/ggufmeta/ggufmeta.go, features.go and summary.go: the header of a model file and
-- the facts that are derived from it. `sort.Slice` by key is insertion sort; entries of one key, whose
-- order Go leaves open, keep theirs.
use llama_rack.Base.{
  ℕ, map, leb, zero, suc, ◌+◌, ◌^◌, Bool, true, false, ◌&&◌, ◌||◌, not, Option, none, some, List,
  [], ◌∷◌, ◌++◌, ltb, ◌==◌, if◌then◌else◌, length, is_nil,
}
use llama_rack.Base.Int64.{Int64, lt64}
use llama_rack.Base.Text.{Text, codes, text_eq, parse_int, scan_digits}
use llama_rack.Base.Maps.{Map, put, lookup, lookup_or}
use llama_rack.Scheduler.Placement.Gpus.{text_lt}
use llama_rack.Gguf.{
  Bytes, Parsed, Reader, ◌>>=◌, return, fail, done, under_key, read_full, read_u32, read_u64,
  retain, invalid_magic, unsupported_version, unreasonable_count, unreasonable_dimensions,
  max_metadata_count,
}
use llama_rack.Gguf.Values.{Printer, Value, read_key, read_string, read_value}
use llama_rack.Gguf.Trim.{trim_bytes, lower_bytes}

pub record Entry : Type 0 where
  pub key : Bytes
  pub type_name : Bytes
  pub value : Bytes
  pub truncated : Bool
  pub array_length : ℕ

pub record Derived : Type 0 where
  pub architecture : Bytes
  pub context_length : Int64
  pub block_count : Int64
  pub embedding : Int64
  pub head_count : Int64
  pub kv_head_count : Int64
  pub key_length : Int64
  pub value_length : Int64
  pub expert_count : Int64
  pub expert_used_count : Int64

pub record Features : Type 0 where
  pub architecture : Bytes
  pub next_n_predict_layers : Int64
  pub has_mtp : Bool
  pub mtp_only : Bool
  pub projector : Bool

pub record Inspection : Type 0 where
  pub version : ℕ
  pub tensor_count : ℕ
  pub metadata_count : ℕ
  pub metadata : List Entry
  pub derived : Derived
  pub features : Features

-- strconv.ParseUint in base 10 and 64 bits.
unfoldable pub parse_uint : Bytes → Option ℕ
parse_uint raw =
    if is_nil raw
    then none
    else elim (scan_digits 0 raw) [ none ↦ none | some n ↦ if ltb n (2 ^ 64) then some n else none ]

-- `math.MaxInt64` at most.
abbrev small_uint : Option ℕ → Option Int64
small_uint none = none
small_uint (some u) = if ltb u (2 ^ 63) then some u else none

-- ParseInt, or else ParseUint if it is an `int64`.
unfoldable pub parse_count : Bytes → Option Int64
unfolding parse_uint
parse_count raw = elim (parse_int raw) [ some n ↦ some n | none ↦ small_uint (parse_uint raw) ]

unfoldable pub exact_int : Map Bytes → Bytes → Int64
exact_int values key = if text_eq key (codes ".") then 0 else elim (lookup key values) [
  | none ↦ 0
  | some raw ↦ elim (parse_count raw) [ none ↦ 0 | some n ↦ n ]
]

unfoldable pub derive : Map Bytes → Derived
derive values =
    let architecture = trim_bytes (lookup_or [] (codes "general.architecture") values) in
    let number : Text → Int64 = λ name. exact_int values (architecture ++ (b'.' ∷ name)) in
    record {
      architecture = architecture;
      context_length = number (codes "context_length");
      block_count = number (codes "block_count");
      embedding = number (codes "embedding_length");
      head_count = number (codes "attention.head_count");
      kv_head_count = number (codes "attention.head_count_kv");
      key_length = number (codes "attention.key_length");
      value_length = number (codes "attention.value_length");
      expert_count = number (codes "expert_count");
      expert_used_count = number (codes "expert_used_count");
    }

unfoldable pub is_standalone_mtp_architecture : Bytes → Bool
is_standalone_mtp_architecture architecture =
    let name = lower_bytes (trim_bytes architecture) in
    text_eq name (codes "gemma4-assistant") || text_eq name (codes "gemma4_assistant")

-- What a positive number of predicted layers adds.
abbrev with_layers : Features → Option Int64 → Features
with_layers features none = features
with_layers features (some n) =
    if lt64 0 n then record features { next_n_predict_layers = n; has_mtp = true } else features

-- strings.EqualFold with a text in small ASCII letters other than k and s, to which no character beyond
-- ASCII folds.
abbrev equal_fold_ascii : Bytes → Text → Bool
equal_fold_ascii bytes text =
    text_eq (map (λ b. if leb b'A' b && leb b b'Z' then b + 32 else b) bytes) text

unfoldable pub summary_features : Derived → Map Bytes → Features
summary_features derived values =
    let architecture = trim_bytes derived.architecture in
    let standalone = is_standalone_mtp_architecture architecture in
    let features : Features = record {
      architecture = architecture;
      next_n_predict_layers = 0;
      has_mtp = standalone;
      mtp_only = standalone;
      projector = equal_fold_ascii architecture (codes "clip");
    } in
    let raw = trim_bytes (lookup_or [] (architecture ++ codes ".nextn_predict_layers") values) in
    if is_nil architecture
    then features
    else if is_nil raw
    then features
    else with_layers features (parse_count raw)

unfoldable pub has_prefix : Bytes → Bytes → Bool
has_prefix [] s = true
has_prefix (a ∷ prefix) [] = false
has_prefix (a ∷ prefix) (b ∷ s) = a == b && has_prefix prefix s

unfoldable pub skip_dimensions : ℕ → Reader (Unit {0})
skip_dimensions zero = return tt
skip_dimensions (suc n) = do _ ← read_u64; skip_dimensions n

-- One descriptor of a tensor: its name.
unfoldable pub read_tensor_name : Reader Bytes
read_tensor_name = do
  (name, _) ← read_string
  dimensions ← read_u32
  _ ← if ltb 8 dimensions then fail unreasonable_dimensions else skip_dimensions dimensions
  _ ← read_u32
  _ ← read_u64
  return name

-- Whether the name of one of the next tensors begins so.
unfoldable pub tensor_prefix_present : ℕ → Bytes → Reader Bool
tensor_prefix_present zero prefix = return false
tensor_prefix_present (suc n) prefix = do
  name ← read_tensor_name
  elim (has_prefix prefix name) [ true ↦ return true | false ↦ tensor_prefix_present n prefix ]

-- An entry, and its scalar where it has one.
unfoldable pub entry_of : Bytes → Value → Entry
entry_of key v = record {
  key = key;
  type_name = v.type_name;
  value = v.display;
  truncated = v.truncated;
  array_length = v.array_length;
}

unfoldable pub add_scalar : Bytes → Value → Map Bytes → Map Bytes
add_scalar key v scalars = if v.scalar then put key v.display scalars else scalars

unfoldable pub insert_entry : Entry → List Entry → List Entry
insert_entry e [] = e ∷ []
insert_entry e (f ∷ entries) =
    if text_lt f.key e.key then f ∷ insert_entry e entries else e ∷ f ∷ entries

unfoldable pub sort_entries : List Entry → List Entry
sort_entries [] = []
sort_entries (e ∷ entries) = insert_entry e (sort_entries entries)

-- The version and the counts of tensors and of metadata.
unfoldable pub read_header : Reader (ℕ × ℕ × ℕ)
read_header = do
  magic ← read_full 4
  _ ← if text_eq magic (codes "GGUF") then return tt else fail invalid_magic
  version ← read_u32
  _ ← if ltb version 2 || ltb 3 version then fail (unsupported_version version) else return tt
  tensor_count ← read_u64
  metadata_count ← read_u64
  _ ← if ltb max_metadata_count metadata_count then fail unreasonable_count else return tt
  return (version, tensor_count, metadata_count)

-- `boundMetadataReader`, and the plain reader behind it.
unfoldable pub meter : Reader (Unit {0})
meter s = done tt (record s { metered = true; consumed = 0; retained = 0 })

unfoldable pub unmeter : Reader (Unit {0})
unmeter s = done tt (record s { metered = false })

-- The refinement of `MTPOnly` by the tensors' names.
unfoldable pub with_trunk : ℕ → Features → Reader Features
with_trunk tensor_count features =
    let refined : Reader Features =
      tensor_prefix_present tensor_count (codes "blk.0.") >>= λ has_trunk.
      return (record features { mtp_only = not has_trunk }) in
    if features.has_mtp && not features.mtp_only then refined else return features

module _ (p : Printer) where
  unfoldable pub read_entry : Reader (Bytes × Value)
  read_entry = do
    key ← read_key
    id ← read_u32
    value ← under_key key (read_value p id)
    _ ← retain (length key + length value.display)
    return (key, value)

  -- The entries in the order of the file, and the scalars.
  unfoldable pub read_entries : ℕ → Map Bytes → Reader (List Entry × Map Bytes)
  read_entries zero scalars = return ([], scalars)
  read_entries (suc n) scalars = do
    (key, value) ← read_entry
    (entries, all) ← read_entries n (add_scalar key value scalars)
    return (entry_of key value ∷ entries, all)

  -- `inspect`.
  unfoldable pub inspect_source : Reader Inspection
  inspect_source = do
    (version, tensor_count, metadata_count) ← read_header
    _ ← meter
    (entries, scalars) ← read_entries metadata_count []
    _ ← unmeter
    let derived = derive scalars
    features ← with_trunk tensor_count (summary_features derived scalars)
    return (record {
      version = version;
      tensor_count = tensor_count;
      metadata_count = metadata_count;
      metadata = sort_entries entries;
      derived = derived;
      features = features;
    })

  -- The inspection of a whole file.
  unfoldable pub inspect : Bytes → Parsed Inspection
  inspect file =
      inspect_source (record { input = file; metered = false; consumed = 0; retained = 0 })
