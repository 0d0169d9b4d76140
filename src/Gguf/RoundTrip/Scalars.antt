-- ===== src/Gguf/RoundTrip/Scalars.antt =====
-- backend/internal/ggufmeta/ggufmeta.go: `readValue` reads back a scalar or a string.
use llama_rack.Base.{
  ℕ, ◌+◌, ◌-◌, ◌%◌, ◌^◌, ◌≤◌, ◌<◌, ◌≡◌, inl, inr, sym, ap, ◌∙◌, Bool, true, false, ◌++◌, ltb,
  if◌then◌else◌, length, length-append, arith, Bool-cases,
}
use llama_rack.Base.Text.{codes, format_int, format_natural}
use mathlib.Core.List.{append_assoc}
use llama_rack.Gguf.{
  Bytes, done, Reader, ◌>>=◌, return, read_full, skip_bytes, read_uint, read_u64,
  max_metadata_section_bytes, max_string_bytes, max_display_bytes,
}
use llama_rack.Gguf.Values.{
  Printer, scalar_value, read_int, read_string, read_scalar, read_value, ellipsis, unsigned_value,
  signed_value, float_value, bool_value, string_value,
}
use llama_rack.Gguf.Encode.{
  Width, byte, half, word, long, Scalar, unsigned, signed, single, double, boolean, text, size_of,
  type_id, put_uint, put_string, put_scalar, IsScalar, take, shown, shown_text,
}
use llama_rack.Gguf.RoundTrip.{
  at, HasRoom, bind_done, read_sized, read_uint_lem, read_int_lem, read_full_lem, skip_bytes_lem,
  drop, take-drop, length-take, length-drop, length-put_uint,
}

read_string_long :
    (s rest : Bytes) (c r : ℕ)
    → length s ≤ max_string_bytes
    → max_display_bytes < length s
    → c + 8 + length s ≤ max_metadata_section_bytes
    → read_string (at true (put_string s ++ rest) c r)
      ≡ done (take max_display_bytes s ++ ellipsis, true) (at true rest (c + 8 + length s) r)
unfolding read_string read_u64
read_string_long s rest c r small over room =
    let fits : ltb max_string_bytes (length s) ≡ false = ground arith in
    let over_long : ltb max_display_bytes (length s) ≡ true = ground arith in
    let front = length-take max_display_bytes s (omega arith) in
    let back = length-drop max_display_bytes s (omega arith) in
    let parts : s ++ rest ≡ take max_display_bytes s ++ (drop max_display_bytes s ++ rest) =
      ap (λ t. t ++ rest) (sym (take-drop max_display_bytes s))
      ∙ append_assoc (take max_display_bytes s) (drop max_display_bytes s) rest in
    ap (λ bytes. read_string (at true bytes c r)) (append_assoc (put_uint 8 (length s)) s rest)
    ∙ bind_done read_u64 _
        (read_uint_lem true 8 (length s) (s ++ rest) c r (omega arith) (omega arith))
    ∙ rw (fits, over_long)
        (ap (λ bytes. long_tail (at true bytes (c + 8) r)) parts
          ∙ bind_done (read_full max_display_bytes) _ (
              read_sized true max_display_bytes (take max_display_bytes s) _ (c + 8) r front
                (omega arith))
          ∙ bind_done (skip_bytes (length s - max_display_bytes)) _ (
              skip_bytes_lem (length s - max_display_bytes) (drop max_display_bytes s) rest
                (c + 8 + max_display_bytes) r back (omega arith))
          ∙ ap (λ n. done (take max_display_bytes s ++ ellipsis, true) (at true rest n r))
              (omega arith))
  where
    long_tail : Reader (Bytes × Bool)
    long_tail = do
      shown ← read_full max_display_bytes
      _ ← skip_bytes (length s - max_display_bytes)
      return (shown ++ ellipsis, true)

read_string_short :
    (s rest : Bytes) (c r : ℕ)
    → length s ≤ max_display_bytes
    → c + 8 + length s ≤ max_metadata_section_bytes
    → read_string (at true (put_string s ++ rest) c r)
      ≡ done (s, false) (at true rest (c + 8 + length s) r)
unfolding read_string read_u64
read_string_short s rest c r small room =
    let fits : ltb max_string_bytes (length s) ≡ false = ground arith in
    let short : ltb max_display_bytes (length s) ≡ false = ground arith in
    ap (λ bytes. read_string (at true bytes c r)) (append_assoc (put_uint 8 (length s)) s rest)
    ∙ bind_done read_u64 _
        (read_uint_lem true 8 (length s) (s ++ rest) c r (omega arith) (omega arith))
    ∙ rw (fits, short)
        (bind_done (read_full (length s)) _ (read_full_lem true s rest (c + 8) r (omega arith)))

read_string_lem :
    (s rest : Bytes) (c r : ℕ)
    → length s ≤ max_string_bytes
    → c + 8 + length s ≤ max_metadata_section_bytes
    → read_string (at true (put_string s ++ rest) c r)
      ≡ done (shown_text s, ltb max_display_bytes (length s)) (at true rest (c + 8 + length s) r)
read_string_lem s rest c r small room = elim (Bool-cases (ltb max_display_bytes (length s))) [
  | inl e ↦ rw e (read_string_long s rest c r small (ground arith) room)
  | inr e ↦ rw e (read_string_short s rest c r (ground arith) room)
]

-- The steps of a number after it is read.
unsigned_lem :
    (w : Width) (n : ℕ) (name rest : Bytes) (c r : ℕ)
    → n < 256 ^ size_of w
    → HasRoom true c (size_of w)
    → unsigned_value name (size_of w) (at true (put_uint (size_of w) n ++ rest) c r)
      ≡ done (scalar_value name (format_natural n)) (at true rest (c + size_of w) r)
unfolding unsigned_value
unsigned_lem w n name rest c r h room =
    bind_done (read_uint (size_of w)) _ (read_uint_lem true (size_of w) n rest c r h room)

signed_lem :
    (w : Width) (v : ℕ) (name rest : Bytes) (c r : ℕ)
    → IsScalar (signed w v)
    → HasRoom true c (size_of w)
    → signed_value name
        (size_of w)
        (at true (put_uint (size_of w) (v % 256 ^ size_of w) ++ rest) c r)
      ≡ done (scalar_value name (format_int v)) (at true rest (c + size_of w) r)
unfolding signed_value
signed_lem w v name rest c r h room =
    bind_done (read_int (size_of w)) _ (read_int_lem w v rest c r h room)

float_lem :
    (format : ℕ → Bytes) (size bits : ℕ) (name rest : Bytes) (c r : ℕ)
    → bits < 256 ^ size
    → HasRoom true c size
    → float_value format name size (at true (put_uint size bits ++ rest) c r)
      ≡ done (scalar_value name (format bits)) (at true rest (c + size) r)
unfolding float_value
float_lem format size bits name rest c r h room =
    bind_done (read_uint size) _ (read_uint_lem true size bits rest c r h room)

bool_lem :
    (b : Bool) (rest : Bytes) (c r : ℕ)
    → HasRoom true c 1
    → bool_value (at true (put_uint 1 (if b then 1 else 0) ++ rest) c r)
      ≡ done
          (scalar_value (codes "bool") (if b then codes "true" else codes "false"))
          (at true rest (c + 1) r)
unfolding bool_value
bool_lem true rest c r room =
    bind_done (read_uint 1) _ (read_uint_lem true 1 1 rest c r (omega arith) room)
bool_lem false rest c r room =
    bind_done (read_uint 1) _ (read_uint_lem true 1 0 rest c r (omega arith) room)

module _ (p : Printer) where
  pub read_value_lem :
      (x : Scalar) (rest : Bytes) (c r : ℕ)
      → IsScalar x
      → c + length (put_scalar x) ≤ max_metadata_section_bytes
      → read_value p (type_id x) (at true (put_scalar x ++ rest) c r)
        ≡ done (shown p x) (at true rest (c + length (put_scalar x)) r)
  unfolding read_value read_scalar string_value put_uint
  read_value_lem (unsigned byte n) rest c r h room = unsigned_lem byte n _ rest c r h room
  read_value_lem (unsigned half n) rest c r h room = unsigned_lem half n _ rest c r h room
  read_value_lem (unsigned word n) rest c r h room = unsigned_lem word n _ rest c r h room
  read_value_lem (unsigned long n) rest c r h room = unsigned_lem long n _ rest c r h room
  read_value_lem (signed byte v) rest c r h room = signed_lem byte v _ rest c r h room
  read_value_lem (signed half v) rest c r h room = signed_lem half v _ rest c r h room
  read_value_lem (signed word v) rest c r h room = signed_lem word v _ rest c r h room
  read_value_lem (signed long v) rest c r h room = signed_lem long v _ rest c r h room
  read_value_lem (single bits) rest c r h room = float_lem p.float32 4 bits _ rest c r h room
  read_value_lem (double bits) rest c r h room = float_lem p.float64 8 bits _ rest c r h room
  read_value_lem (boolean b) rest c r h room = bool_lem b rest c r room
  read_value_lem (text s) rest c r h room =
      let size = length-append (put_uint 8 (length s)) s in
      bind_done read_string _
        (read_string_lem s rest c r h (omega (arith, size, room, length-put_uint 8 (length s))))
      ∙ ap (λ n. done (shown p (text s)) (at true rest n r))
          (omega (arith, size, length-put_uint 8 (length s)))
