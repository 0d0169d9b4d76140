-- ===== src/Gguf/RoundTrip.antt =====
-- backend/internal/ggufmeta/ggufmeta.go: `inspect` reads back what was written.
pub mod Scalars
pub mod Files
use llama_rack.Base.{
  ℕ, zero, suc, ◌+◌, ◌-◌, ◌*◌, ◌/◌, ◌%◌, ◌^◌, ◌≤◌, ◌<◌, ◌≡◌, refl, ap, subst, ◌∙◌, Bool, true,
  false, some, [], ◌∷◌, ◌++◌, ltb, if◌then◌else◌, length, arith,
}
use mathlib.Core.List.{append_assoc}
use native.Mathlib.Nat.{pow-suc}
use llama_rack.Gguf.{
  Bytes, Source, done, Reader, ◌>>=◌, split_bytes, read_full, skip_bytes, little_endian, read_uint,
  read_u64, max_metadata_section_bytes, max_key_bytes,
}
use llama_rack.Gguf.Values.{sign_extend, read_int, read_key}
use llama_rack.Gguf.Encode.{
  Width, byte, half, word, long, signed, size_of, put_uint, put_string, IsScalar, take,
}

abbrev pub at : Bool → Bytes → ℕ → ℕ → Source
at m bytes c r = record { input = bytes; metered = m; consumed = c; retained = r }

-- How a read of `n` bytes counts, and that it may.
abbrev pub moved : Bool → ℕ → ℕ → ℕ
moved m c n = if m then c + n else c

abbrev pub HasRoom : Bool → ℕ → ℕ → Type 0
HasRoom true c n = c + n ≤ max_metadata_section_bytes
HasRoom false c n = Unit

-- What follows a read that succeeds.
pub bind_done :
    {A B : Type 0} (m : Reader A) (f : A → Reader B) {s s' : Source} {a : A}
    → m s ≡ done a s'
    → (m >>= f) s ≡ f a s'
bind_done m f e = rw (e, ◌>>=◌)

split_bytes-append :
    (front rest : Bytes) → split_bytes (length front) (front ++ rest) ≡ some (front, rest)
unfolding split_bytes
split_bytes-append [] rest = refl
split_bytes-append (b ∷ front) rest = rw (split_bytes-append front rest)

pub read_full_lem :
    (m : Bool) (front rest : Bytes) (c r : ℕ)
    → HasRoom m c (length front)
    → read_full (length front) (at m (front ++ rest) c r)
      ≡ done front (at m rest (moved m c (length front)) r)
unfolding read_full
read_full_lem true front rest c r h =
    let enough : ltb (max_metadata_section_bytes - c) (length front) ≡ false = ground arith in
    rw (enough, split_bytes-append front rest)
read_full_lem false front rest c r h = rw (split_bytes-append front rest)

pub length-put_uint : (size n : ℕ) → length (put_uint size n) ≡ size
unfolding put_uint
length-put_uint zero n = refl
length-put_uint (suc size) n = omega (arith, length-put_uint size (n / 256))

little_endian-put_uint : (size n : ℕ) → n < 256 ^ size → little_endian (put_uint size n) ≡ n
unfolding put_uint little_endian
little_endian-put_uint zero n h = omega arith
little_endian-put_uint (suc size) n h =
    omega (arith, little_endian-put_uint size (n / 256) (omega (arith, pow-suc 256 size)))

pub read_sized :
    (m : Bool) (n : ℕ) (front rest : Bytes) (c r : ℕ)
    → length front ≡ n
    → HasRoom m c n
    → read_full n (at m (front ++ rest) c r) ≡ done front (at m rest (moved m c n) r)
read_sized m n front rest c r e =
    subst
      (λ k.
        HasRoom m c k
        → read_full k (at m (front ++ rest) c r) ≡ done front (at m rest (moved m c k) r))
      e (read_full_lem m front rest c r)

pub read_uint_lem :
    (m : Bool) (size n : ℕ) (rest : Bytes) (c r : ℕ)
    → n < 256 ^ size
    → HasRoom m c size
    → read_uint size (at m (put_uint size n ++ rest) c r) ≡ done n (at m rest (moved m c size) r)
unfolding read_uint
read_uint_lem m size n rest c r h k =
    bind_done (read_full size) _
      (read_sized m size (put_uint size n) rest c r (length-put_uint size n) k)
    ∙ ap (λ v. done v (at m rest (moved m c size) r)) (little_endian-put_uint size n h)

sign_extend-mod :
    (w : Width) (v : ℕ)
    → IsScalar (signed w v)
    → sign_extend (8 * size_of w) (v % 256 ^ size_of w) ≡ v
unfolding sign_extend
sign_extend-mod byte v h = ground arith
sign_extend-mod half v h = ground arith
sign_extend-mod word v h = ground arith
sign_extend-mod long v h = ground arith

pub read_int_lem :
    (w : Width) (v : ℕ) (rest : Bytes) (c r : ℕ)
    → IsScalar (signed w v)
    → HasRoom true c (size_of w)
    → read_int (size_of w) (at true (put_uint (size_of w) (v % 256 ^ size_of w) ++ rest) c r)
      ≡ done v (at true rest (c + size_of w) r)
unfolding read_int
read_int_lem w v rest c r h k =
    bind_done (read_uint (size_of w)) _
      (read_uint_lem true (size_of w) (v % 256 ^ size_of w) rest c r (mod_small w v) k)
    ∙ ap (λ x. done x (at true rest (c + size_of w) r)) (sign_extend-mod w v h)
  where
    mod_small : (w : Width) (v : ℕ) → v % 256 ^ size_of w < 256 ^ size_of w
    mod_small byte v = omega arith
    mod_small half v = omega arith
    mod_small word v = omega arith
    mod_small long v = omega arith

pub length-take : (n : ℕ) (s : Bytes) → n ≤ length s → length (take n s) ≡ n
unfolding take
length-take zero s h = refl
length-take (suc n) [] h = absurd (omega arith)
length-take (suc n) (b ∷ s) h = omega (arith, length-take n s (omega arith))

-- A string in two parts.
pub drop : ℕ → Bytes → Bytes
drop zero s = s
drop (suc n) [] = []
drop (suc n) (b ∷ s) = drop n s

pub take-drop : (n : ℕ) (s : Bytes) → take n s ++ drop n s ≡ s
unfolding take drop
take-drop zero s = refl
take-drop (suc n) [] = refl
take-drop (suc n) (b ∷ s) = ap (◌∷◌ b) (take-drop n s)

pub length-drop : (n : ℕ) (s : Bytes) → n ≤ length s → length (drop n s) ≡ length s - n
unfolding drop
length-drop zero s h = omega arith
length-drop (suc n) [] h = absurd (omega arith)
length-drop (suc n) (b ∷ s) h = omega (arith, length-drop n s (omega arith))

pub skip_bytes_lem :
    (n : ℕ) (front rest : Bytes) (c r : ℕ)
    → length front ≡ n
    → HasRoom true c n
    → skip_bytes n (at true (front ++ rest) c r) ≡ done tt (at true rest (c + n) r)
unfolding skip_bytes
skip_bytes_lem n front rest c r e k =
    bind_done (read_full n) _ (read_sized true n front rest c r e k)

pub read_key_lem :
    (key rest : Bytes) (c r : ℕ)
    → length key ≤ max_key_bytes
    → c + 8 + length key ≤ max_metadata_section_bytes
    → read_key (at true (put_string key ++ rest) c r)
      ≡ done key (at true rest (c + 8 + length key) r)
unfolding read_key read_u64
read_key_lem key rest c r h k =
    let small : ltb max_key_bytes (length key) ≡ false = ground arith in
    ap (λ bytes. read_key (at true bytes c r)) (append_assoc (put_uint 8 (length key)) key rest)
    ∙ bind_done read_u64 _
        (read_uint_lem true 8 (length key) (key ++ rest) c r (omega arith) (omega arith))
    ∙ rw small (read_full_lem true key rest (c + 8) r (omega arith))
