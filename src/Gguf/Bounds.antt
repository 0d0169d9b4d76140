-- ===== src/Gguf/Bounds.antt =====
-- backend/internal/ggufmeta: what a read leaves of the budget for keys and values.
pub mod Entries
use llama_rack.Base.{
  ℕ, zero, suc, ◌-◌, ◌*◌, ◌≡◌, refl, ◌∙◌, Bool, true, false, Option, none, some, ltb, ◌==◌,
  if◌then◌else◌, arith, Option-cases, inl, inr,
}
use llama_rack.Gguf.{
  Bytes, Source, Error, Parsed, done, failed, Reader, ◌>>=◌, return, fail, split_bytes, read_full,
  skip_bytes, read_uint, read_u32, read_u64, max_array_count, max_string_bytes,
}
use llama_rack.Gguf.Values.{
  Printer, read_int, read_key, read_string, unsigned_value, signed_value, bool_value, string_value,
  float_value, skip_string, skip_value, skip_values, skip_array_remainder, fixed_size, type_name,
  read_scalar, read_preview, read_elements, read_array_of, read_array, read_value,
}

-- A read that leaves the budget as it is.
abbrev pub Keeps : {A : Type 0} → Reader A → Type 0
Keeps {A = A} m = (s : Source) (a : A) (s' : Source) → m s ≡ done a s' → s'.retained ≡ s.retained

-- What came before the end of a read that succeeds.
pub bind-done :
    {A B : Type 0} (m : Reader A) (f : A → Reader B) (s : Source) (b : B) (s' : Source)
    → (m >>= f) s ≡ done b s'
    → (a : A) × (s1 : Source) × (m s ≡ done a s1) × (f a s1 ≡ done b s')
bind-done {A = A} {B = B} m f s b s' h = go (m s) refl h
  where
    go :
        (r : Parsed A)
        → m s ≡ r
        → (elim r [ failed e ↦ failed e | done a s1 ↦ f a s1 ]) ≡ done b s'
        → (a : A) × (s1 : Source) × (m s ≡ done a s1) × (f a s1 ≡ done b s')
    go (failed e) same h = absurd (ground (arith, h))
    go (done a s1) same h = (a, s1, same, h)

-- The same, for what follows from it.
pub bind-then :
    {A B P : Type 0} (m : Reader A) (f : A → Reader B) (s : Source) (b : B) (s' : Source)
    → (m >>= f) s ≡ done b s'
    → ((a : A) (s1 : Source) → m s ≡ done a s1 → f a s1 ≡ done b s' → P)
    → P
bind-then m f s b s' h k = let (a, s1, h1, h2) = bind-done m f s b s' h in k a s1 h1 h2

bind-Keeps :
    {A B : Type 0} (m : Reader A) (f : A → Reader B)
    → Keeps m
    → ((a : A) → Keeps (f a))
    → Keeps (m >>= f)
bind-Keeps m f first rest s b s' h =
    let (a, s1, h1, h2) = bind-done m f s b s' h in rest a s1 b s' h2 ∙ first s a s1 h1

return-Keeps : {A : Type 0} (a : A) → Keeps (return a)
return-Keeps a s b s' h = ground (arith, h)

fail-Keeps : {A : Type 0} (e : Error) → Keeps {A = A} (fail e)
fail-Keeps e s b s' h = absurd (ground (arith, h))

if-Keeps : {A : Type 0} (b : Bool) (m n : Reader A) → Keeps m → Keeps n → Keeps (if b then m else n)
if-Keeps true m n h k = h
if-Keeps false m n h k = k

read_full-Keeps : (n : ℕ) → Keeps (read_full n)
unfolding read_full
read_full-Keeps n s a s' h = elim (Option-cases (split_bytes n s.input)) [
  | inl e ↦ ground (arith, h, e)
  | inr ((front, rest), e) ↦ ground (arith, h, e)
]

skip_bytes-Keeps : (n : ℕ) → Keeps (skip_bytes n)
unfolding skip_bytes
skip_bytes-Keeps n = bind-Keeps (read_full n) _ (read_full-Keeps n) (λ _. return-Keeps tt)

read_uint-Keeps : (size : ℕ) → Keeps (read_uint size)
unfolding read_uint
read_uint-Keeps size =
    bind-Keeps (read_full size) _ (read_full-Keeps size) (λ bytes. return-Keeps _)

pub read_u32-Keeps : Keeps read_u32
unfolding read_u32
read_u32-Keeps = read_uint-Keeps 4

read_u64-Keeps : Keeps read_u64
unfolding read_u64
read_u64-Keeps = read_uint-Keeps 8

read_int-Keeps : (size : ℕ) → Keeps (read_int size)
unfolding read_int
read_int-Keeps size = bind-Keeps (read_uint size) _ (read_uint-Keeps size) (λ u. return-Keeps _)

pub read_key-Keeps : Keeps read_key
unfolding read_key
read_key-Keeps =
    bind-Keeps read_u64 _ read_u64-Keeps (λ n. if-Keeps _ _ _ (fail-Keeps _) (read_full-Keeps n))

read_string-Keeps : Keeps read_string
unfolding read_string
read_string-Keeps = bind-Keeps read_u64 _ read_u64-Keeps (λ n.
    if-Keeps (ltb max_string_bytes n) _ _ (fail-Keeps _) (
      bind-Keeps (read_full _) _ (read_full-Keeps _) (λ shown.
        bind-Keeps _ _ (if-Keeps _ _ _ (skip_bytes-Keeps _) (return-Keeps tt))
          (λ _. return-Keeps _))))

unsigned_value-Keeps : (name : Bytes) (size : ℕ) → Keeps (unsigned_value name size)
unfolding unsigned_value
unsigned_value-Keeps name size =
    bind-Keeps (read_uint size) _ (read_uint-Keeps size) (λ v. return-Keeps _)

signed_value-Keeps : (name : Bytes) (size : ℕ) → Keeps (signed_value name size)
unfolding signed_value
signed_value-Keeps name size =
    bind-Keeps (read_int size) _ (read_int-Keeps size) (λ v. return-Keeps _)

bool_value-Keeps : Keeps bool_value
unfolding bool_value
bool_value-Keeps = bind-Keeps (read_uint 1) _ (read_uint-Keeps 1) (λ v. return-Keeps _)

string_value-Keeps : Keeps string_value
unfolding string_value
string_value-Keeps = bind-Keeps read_string _ read_string-Keeps (λ v. return-Keeps _)

float_value-Keeps :
    (format : ℕ → Bytes) (name : Bytes) (size : ℕ) → Keeps (float_value format name size)
unfolding float_value
float_value-Keeps format name size =
    bind-Keeps (read_uint size) _ (read_uint-Keeps size) (λ bits. return-Keeps _)

skip_string-Keeps : Keeps skip_string
unfolding skip_string
skip_string-Keeps =
    bind-Keeps read_u64 _ read_u64-Keeps (λ n. if-Keeps _ _ _ (fail-Keeps _) (skip_bytes-Keeps n))

option-Keeps :
    {A B : Type 0} (o : Option B) (m : Reader A) (f : B → Reader A)
    → Keeps m
    → ((b : B) → Keeps (f b))
    → Keeps (elim o [ none ↦ m | some b ↦ f b ])
option-Keeps none m f h k = h
option-Keeps (some b) m f h k = k b

skip_value-Keeps : (id : ℕ) → Keeps (skip_value id)
unfolding skip_value
skip_value-Keeps id =
    option-Keeps (fixed_size id) _ skip_bytes
      (if-Keeps (id == 8) _ _ skip_string-Keeps (fail-Keeps _)) skip_bytes-Keeps

skip_values-Keeps : (id n : ℕ) → Keeps (skip_values id n)
unfolding skip_values
skip_values-Keeps id zero = return-Keeps tt
skip_values-Keeps id (suc n) =
    bind-Keeps (skip_value id) _ (skip_value-Keeps id) (λ _. skip_values-Keeps id n)

skip_array_remainder-Keeps : (id remaining : ℕ) → Keeps (skip_array_remainder id remaining)
unfolding skip_array_remainder
skip_array_remainder-Keeps id remaining =
    option-Keeps (fixed_size id) _ _ (skip_values-Keeps id remaining)
      (λ size. if-Keeps _ _ _ (fail-Keeps _) (skip_bytes-Keeps (remaining * size)))

module _ (p : Printer) where
  read_scalar-Keeps : (id : ℕ) → Keeps (read_scalar p id)
  unfolding read_scalar
  read_scalar-Keeps id = if-Keeps (id == 0) _ _ (unsigned_value-Keeps _ 1) (
      if-Keeps (id == 1) _ _ (signed_value-Keeps _ 1) (
        if-Keeps (id == 2) _ _ (unsigned_value-Keeps _ 2) (
          if-Keeps (id == 3) _ _ (signed_value-Keeps _ 2) (
            if-Keeps (id == 4) _ _ (unsigned_value-Keeps _ 4) (
              if-Keeps (id == 5) _ _ (signed_value-Keeps _ 4) (
                if-Keeps (id == 6) _ _ (float_value-Keeps p.float32 _ 4) (
                  if-Keeps (id == 7) _ _ bool_value-Keeps (
                    if-Keeps (id == 8) _ _ string_value-Keeps (
                      if-Keeps (id == 10) _ _ (unsigned_value-Keeps _ 8) (
                        if-Keeps (id == 11) _ _ (signed_value-Keeps _ 8) (
                          if-Keeps (id == 12) _ _ (float_value-Keeps p.float64 _ 8)
                            (fail-Keeps _))))))))))))

  read_preview-Keeps : (id n : ℕ) → Keeps (read_preview p id n)
  unfolding read_preview
  read_preview-Keeps id zero = return-Keeps _
  read_preview-Keeps id (suc n) =
      bind-Keeps (read_scalar p id) _ (read_scalar-Keeps id)
        (λ v. bind-Keeps (read_preview p id n) _ (read_preview-Keeps id n) (λ rest. return-Keeps _))

  read_elements-Keeps : (id count : ℕ) (name : Bytes) → Keeps (read_elements p id count name)
  unfolding read_elements
  read_elements-Keeps id count name =
      bind-Keeps (read_preview p id _) _ (read_preview-Keeps id _) (λ shown.
        bind-Keeps _ _ (if-Keeps _ _ _ (return-Keeps tt) (skip_array_remainder-Keeps id _))
          (λ _. return-Keeps _))

  read_array-Keeps : Keeps (read_array p)
  unfolding read_array read_array_of
  read_array-Keeps = bind-Keeps read_u32 _ read_u32-Keeps (λ id.
      bind-Keeps read_u64 _ read_u64-Keeps (λ count.
        if-Keeps (ltb max_array_count count) _ _ (fail-Keeps _) (
          if-Keeps (id == 9) _ _ (fail-Keeps _)
            (option-Keeps (type_name id) _ _ (fail-Keeps _) (read_elements-Keeps id count)))))

  pub read_value-Keeps : (id : ℕ) → Keeps (read_value p id)
  unfolding read_value
  read_value-Keeps id = if-Keeps (id == 9) _ _ read_array-Keeps (read_scalar-Keeps id)
