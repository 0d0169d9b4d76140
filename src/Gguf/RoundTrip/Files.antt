-- ===== src/Gguf/RoundTrip/Files.antt =====
-- backend/internal/ggufmeta/ggufmeta.go: `inspect` reads back the entries of a file and its header.
use llama_rack.Base.{
  ℕ, ◌+◌, ◌-◌, ◌^◌, ◌≤◌, ◌<◌, ◌≡◌, refl, ap, ◌∙◌, true, false, List, [], ◌∷◌, ◌++◌, ltb, ◌||◌,
  length, length-append, arith, All, map,
}
use llama_rack.Base.Text.{codes}
use llama_rack.Base.Maps.{Map, put}
use mathlib.Core.List.{append_assoc}
use llama_rack.Gguf.{
  Bytes, Source, done, Reader, ◌>>=◌, return, under_key, retain, read_full, read_u32, read_u64,
  max_metadata_section_bytes, max_retained_metadata_bytes, max_metadata_count,
}
use llama_rack.Gguf.Values.{Printer, read_key, read_value}
use llama_rack.Gguf.Inspect.{
  read_entry, read_entries, entry_of, add_scalar, Inspection, read_header, inspect, inspect_source,
  meter, unmeter, derive, summary_features, with_trunk, sort_entries, Features,
}
use llama_rack.Gguf.Encode.{
  byte, half, word, long, Scalar, unsigned, signed, single, double, boolean, text, Item, type_id,
  put_uint, put_string, put_scalar, put_item, put_items, put_file, IsItem, shown, shown_entry,
  shown_bytes, shown_scalars,
}
use llama_rack.Gguf.RoundTrip.{
  at, bind_done, read_full_lem, read_uint_lem, read_key_lem, length-put_uint,
}
use llama_rack.Gguf.RoundTrip.Scalars.{read_value_lem}

-- The counts of a source.
counted :
    {A : Type 0} (a : A) (rest : Bytes) {c c' r r' : ℕ}
    → c ≡ c'
    → r ≡ r'
    → done a (at true rest c r) ≡ done a (at true rest c' r')
counted a rest e f = rw (e, f)

length-put_item :
    (i : Item) → length (put_item i) ≡ 12 + length i.key + length (put_scalar i.scalar)
length-put_item i = omega (
  arith,
  length-append (put_string i.key) (put_uint 4 (type_id i.scalar) ++ put_scalar i.scalar),
  length-append (put_uint 8 (length i.key)) i.key,
  length-append (put_uint 4 (type_id i.scalar)) (put_scalar i.scalar),
  length-put_uint 8 (length i.key),
  length-put_uint 4 (type_id i.scalar),
)

-- The number of a type takes four bytes.
type_id-bound : (x : Scalar) → type_id x < 13
type_id-bound (unsigned byte n) = omega arith
type_id-bound (unsigned half n) = omega arith
type_id-bound (unsigned word n) = omega arith
type_id-bound (unsigned long n) = omega arith
type_id-bound (signed byte v) = omega arith
type_id-bound (signed half v) = omega arith
type_id-bound (signed word v) = omega arith
type_id-bound (signed long v) = omega arith
type_id-bound (single bits) = omega arith
type_id-bound (double bits) = omega arith
type_id-bound (boolean b) = omega arith
type_id-bound (text s) = omega arith

under_key-done :
    {A : Type 0} (key : Bytes) (m : Reader A) {s s' : Source} {a : A}
    → m s ≡ done a s'
    → under_key key m s ≡ done a s'
under_key-done key m e = rw (e, under_key)

retain_lem :
    (n : ℕ) (bytes : Bytes) (c r : ℕ)
    → r + n ≤ max_retained_metadata_bytes
    → retain n (at true bytes c r) ≡ done tt (at true bytes c (r + n))
unfolding retain
retain_lem n bytes c r h =
    let whole : ltb max_retained_metadata_bytes n ≡ false = ground arith in
    let left : ltb (max_retained_metadata_bytes - n) r ≡ false = ground arith in rw (whole, left)

plain : (bytes : Bytes) (c r : ℕ) → at false bytes (0 + c) (0 + r) ≡ at false bytes c r
plain bytes c r =
    let zero_plus : (n : ℕ) → 0 + n ≡ n = λ n. omega arith in rw (zero_plus c, zero_plus r)

module _ (p : Printer) where
  -- The bytes of an item that are kept.
  abbrev kept : Item → ℕ
  kept i = length i.key + length (shown p i.scalar).display

  item_split :
      (i : Item) (rest : Bytes)
      → put_item i ++ rest
        ≡ put_string i.key ++ (put_uint 4 (type_id i.scalar) ++ (put_scalar i.scalar ++ rest))
  item_split i rest =
      append_assoc (put_string i.key) (put_uint 4 (type_id i.scalar) ++ put_scalar i.scalar) rest
      ∙ ap (◌++◌ (put_string i.key))
          (append_assoc (put_uint 4 (type_id i.scalar)) (put_scalar i.scalar) rest)

  read_entry_lem :
      (i : Item) (rest : Bytes) (c r : ℕ)
      → IsItem i
      → c + length (put_item i) ≤ max_metadata_section_bytes
      → r + kept i ≤ max_retained_metadata_bytes
      → read_entry p (at true (put_item i ++ rest) c r)
        ≡ done (i.key, shown p i.scalar) (at true rest (c + length (put_item i)) (r + kept i))
  unfolding read_entry read_u32
  read_entry_lem i rest c r (short, h) room keeps =
      let size = length-put_item i in
      let small = type_id-bound i.scalar in
      let c' = c + 8 + length i.key in
      ap (λ bytes. read_entry p (at true bytes c r)) (item_split i rest)
      ∙ bind_done read_key _ (read_key_lem i.key _ c r short (omega arith))
      ∙ bind_done read_u32 _
          (read_uint_lem true 4 (type_id i.scalar) _ c' r (omega arith) (omega arith))
      ∙ bind_done (under_key i.key (read_value p (type_id i.scalar))) _ (
          under_key-done i.key (read_value p (type_id i.scalar))
            (read_value_lem p i.scalar rest (c' + 4) r h (omega arith)))
      ∙ bind_done (retain (kept i)) _
          (retain_lem (kept i) rest (c' + 4 + length (put_scalar i.scalar)) r keeps)
      ∙ ap (λ n. done (i.key, shown p i.scalar) (at true rest n (r + kept i))) (omega arith)

  shown-scalar : (x : Scalar) → (shown p x).scalar ≡ true
  shown-scalar (unsigned w n) = refl
  shown-scalar (signed w v) = refl
  shown-scalar (single bits) = refl
  shown-scalar (double bits) = refl
  shown-scalar (boolean b) = refl
  shown-scalar (text s) = refl

  shown-array_length : (x : Scalar) → (shown p x).array_length ≡ 0
  shown-array_length (unsigned w n) = refl
  shown-array_length (signed w v) = refl
  shown-array_length (single bits) = refl
  shown-array_length (double bits) = refl
  shown-array_length (boolean b) = refl
  shown-array_length (text s) = refl

  pub read_entries_lem :
      (items : List Item) (rest : Bytes) (m : Map Bytes) (c r : ℕ)
      → All IsItem items
      → c + length (put_items items) ≤ max_metadata_section_bytes
      → r + shown_bytes p items ≤ max_retained_metadata_bytes
      → read_entries p (length items) m (at true (put_items items ++ rest) c r)
        ≡ done
            (map (shown_entry p) items, shown_scalars p items m)
            (at true rest (c + length (put_items items)) (r + shown_bytes p items))
  unfolding read_entries put_items entry_of add_scalar
  read_entries_lem [] rest m c r h room keeps = counted _ rest (omega arith) (omega arith)
  read_entries_lem (i ∷ items) rest m c r (h, hs) room keeps =
      let size = length-append (put_item i) (put_items items) in
      ap (λ bytes. read_entries p (length (i ∷ items)) m (at true bytes c r))
        (append_assoc (put_item i) (put_items items) rest)
      ∙ bind_done (read_entry p) _
          (read_entry_lem i (put_items items ++ rest) c r h (omega arith) (omega arith))
      ∙ rw (shown-scalar i.scalar, shown-array_length i.scalar)
          (bind_done (read_entries p (length items) (put i.key (shown p i.scalar).display m)) _ (
              read_entries_lem items rest (put i.key (shown p i.scalar).display m)
                (c + length (put_item i)) (r + kept i) hs (omega arith) (omega arith))
            ∙ counted _ rest (omega arith) (omega arith))

  file_split :
      (version tensor_count : ℕ) (items : List Item) (tensors : Bytes)
      → put_file version tensor_count items ++ tensors
        ≡ codes "GGUF"
          ++ (put_uint 4 version
              ++ (put_uint 8 tensor_count
                  ++ (put_uint 8 (length items) ++ (put_items items ++ tensors))))
  unfolding put_file
  file_split version tensor_count items tensors = ap (◌++◌ (codes "GGUF")) (
      append_assoc (put_uint 4 version) _ tensors
      ∙ ap (◌++◌ (put_uint 4 version)) (
          append_assoc (put_uint 8 tensor_count) _ tensors
          ∙ ap (◌++◌ (put_uint 8 tensor_count))
              (append_assoc (put_uint 8 (length items)) _ tensors)))

  -- What a header with these counts leaves.
  read_header_lem :
      (version tensor_count count : ℕ) (rest : Bytes) (r : ℕ)
      → 2 ≤ version
      → version ≤ 3
      → tensor_count < 2 ^ 64
      → count ≤ max_metadata_count
      → read_header (
          at false
            (codes "GGUF"
              ++ (put_uint 4 version ++ (put_uint 8 tensor_count ++ (put_uint 8 count ++ rest))))
            0
            0)
        ≡ done (version, tensor_count, count) (at false rest 0 0)
  unfolding read_header read_u32 read_u64 llama_rack.Base.Text.text_eq
  read_header_lem version tensor_count count rest r above below tensors small =
      let known : ltb version 2 || ltb 3 version ≡ false = ground arith in
      let fits : ltb max_metadata_count count ≡ false = ground arith in
      bind_done (read_full 4) _ (read_full_lem false (codes "GGUF") _ 0 0 tt)
      ∙ bind_done read_u32 _ (read_uint_lem false 4 version _ 0 0 (omega arith) tt)
      ∙ rw known (
          bind_done read_u64 _ (read_uint_lem false 8 tensor_count _ 0 0 tensors tt)
          ∙ bind_done read_u64 _ (read_uint_lem false 8 count rest 0 0 (omega arith) tt)
          ∙ rw fits refl)

  -- What an inspection shows of the items of a file, its features given.
  abbrev pub inspection : ℕ → ℕ → List Item → Features → Inspection
  inspection version tensor_count items features = record {
    version = version;
    tensor_count = tensor_count;
    metadata_count = length items;
    metadata = sort_entries (map (shown_entry p) items);
    derived = derive (shown_scalars p items []);
    features = features;
  }

  abbrev pub features_of : List Item → Features
  features_of items =
      let scalars = shown_scalars p items [] in summary_features (derive scalars) scalars

  -- What the inspection of a file does with its tensors.
  abbrev pub after : ℕ → ℕ → List Item → Reader Inspection
  after version tensor_count items = with_trunk tensor_count (features_of items) >>= λ features.
      return (inspection version tensor_count items features)

  -- A file of version 2 or 3 with at most 4096 items, each a key of at most 64 KiB with a number, a
  -- truth value or a string of at most 16 MiB, is inspected as the sorted list of what the items show
  -- and as the facts that derive from them, when the items take at most 64 MiB in the file and what is
  -- shown of them at most 2 MiB; only the features may depend on the tensors behind them.
  pub inspect-put_file :
      (version tensor_count : ℕ) (items : List Item) (tensors : Bytes)
      → 2 ≤ version
      → version ≤ 3
      → tensor_count < 2 ^ 64
      → length items ≤ max_metadata_count
      → All IsItem items
      → length (put_items items) ≤ max_metadata_section_bytes
      → shown_bytes p items ≤ max_retained_metadata_bytes
      → inspect p (put_file version tensor_count items ++ tensors)
        ≡ after version tensor_count items
            (at false tensors (length (put_items items)) (shown_bytes p items))
  unfolding inspect inspect_source put_file meter unmeter
  inspect-put_file version tensor_count items tensors above below few small valid room keeps =
      ap (λ file. inspect p file) (file_split version tensor_count items tensors)
      ∙ bind_done read_header _ (
          read_header_lem version tensor_count (length items) (put_items items ++ tensors) 0 above
            below few small)
      ∙ bind_done (read_entries p (length items) []) _
          (read_entries_lem items tensors [] 0 0 valid (omega arith) (omega arith))
      ∙ ap (after version tensor_count items)
          (plain tensors (length (put_items items)) (shown_bytes p items))
