-- ===== src/Gguf/Bounds/Entries.antt =====
-- backend/internal/ggufmeta/ggufmeta.go and budget.go: what `inspect` may keep of any file.
use llama_rack.Base.{
  ℕ, zero, suc, ◌+◌, ◌≤◌, ◌≡◌, refl, subst, ◌∙◌, Bool, true, false, List, [], ◌∷◌, ltb,
  if◌then◌else◌, length, arith,
}
use llama_rack.Base.Maps.{Map}
use llama_rack.Gguf.{
  Bytes, Source, Error, Parsed, done, failed, Reader, ◌>>=◌, return, fail, in_entry, under_key,
  read_full, read_u32, read_u64, retain, max_retained_metadata_bytes, max_metadata_count,
}
use llama_rack.Gguf.Values.{Printer, Value, read_key, read_value}
use llama_rack.Gguf.Inspect.{
  Entry, Inspection, read_header, meter, unmeter, read_entry, read_entries, entry_of, add_scalar,
  insert_entry, sort_entries, derive, summary_features, with_trunk, inspect_source, inspect,
}
use llama_rack.Gguf.Bounds.{bind-then, read_key-Keeps, read_u32-Keeps, read_value-Keeps}

-- The bytes of keys and values that entries hold.
abbrev pub held : List Entry → ℕ
held [] = 0
held (e ∷ entries) = length e.key + length e.value + held entries

retain-bounds :
    (n : ℕ) (s s' : Source)
    → retain n s ≡ done tt s'
    → (s'.retained ≡ s.retained + n) × (s'.retained ≤ max_retained_metadata_bytes)
unfolding retain
retain-bounds n s s' h = ground (arith, h)

under_key-done :
    {A : Type 0} (key : Bytes) (m : Reader A) (s : Source) (a : A) (s' : Source)
    → under_key key m s ≡ done a s'
    → m s ≡ done a s'
under_key-done {A = A} key m s a s' h = go (m s) refl h
  where
    go :
        (r : Parsed A)
        → m s ≡ r
        → (elim r [ failed e ↦ failed (in_entry key e) | done b s1 ↦ done b s1 ]) ≡ done a s'
        → m s ≡ done a s'
    go (failed e) same h = absurd (ground (arith, h))
    go (done b s1) same h = same ∙ h

insert_entry-sizes :
    (e : Entry) (entries : List Entry)
    → (length (insert_entry e entries) ≡ suc (length entries))
      × (held (insert_entry e entries) ≡ length e.key + length e.value + held entries)
unfolding insert_entry
insert_entry-sizes e [] = (refl, refl)
insert_entry-sizes e (f ∷ entries) = ground (arith, insert_entry-sizes e entries)

sort_entries-sizes :
    (entries : List Entry)
    → (length (sort_entries entries) ≡ length entries)
      × (held (sort_entries entries) ≡ held entries)
unfolding sort_entries
sort_entries-sizes [] = (refl, refl)
sort_entries-sizes (e ∷ entries) =
    omega (arith, insert_entry-sizes e (sort_entries entries), sort_entries-sizes entries)

-- A read whose value has a property, when it succeeds.
abbrev Gives : {A : Type 0} → (A → Type 0) → Reader A → Type 0
Gives {A = A} P m = (s : Source) (a : A) (s' : Source) → m s ≡ done a s' → P a

bind-Gives :
    {A B : Type 0} (P : B → Type 0) (m : Reader A) (f : A → Reader B)
    → ((a : A) → Gives P (f a))
    → Gives P (m >>= f)
bind-Gives P m f gives s b s' h = bind-then m f s b s' h (λ a s1 h1 h2. gives a s1 b s' h2)

-- What follows a check that may fail.
guard-Gives :
    {B : Type 0} (P : B → Type 0) (b : Bool) (e : Error) (m : Reader B)
    → (b ≡ false → Gives P m)
    → Gives P ((if b then fail e else return (tt {0})) >>= λ _. m)
guard-Gives P true e m gives s b s' h = absurd (ground (arith, h))
guard-Gives P false e m gives s b s' h = gives refl s b s' h

return-Gives : {A : Type 0} (P : A → Type 0) (a : A) → P a → Gives P (return a)
return-Gives P a p s b s' h = let same : a ≡ b = ground (arith, h) in subst P same p

-- The number of entries that a header may announce.
abbrev FewEntries : ℕ × ℕ × ℕ → Type 0
FewEntries header = header.2 ≤ max_metadata_count

read_header-FewEntries : Gives FewEntries read_header
unfolding read_header
read_header-FewEntries = bind-Gives FewEntries (read_full 4) _ (λ magic.
    bind-Gives FewEntries _ _ (λ _. bind-Gives FewEntries read_u32 _ (λ version.
      bind-Gives FewEntries _ _ (λ _. bind-Gives FewEntries read_u64 _ (λ tensor_count.
        bind-Gives FewEntries read_u64 _ (λ count.
          guard-Gives FewEntries (ltb max_metadata_count count) _ _ (λ few.
            return-Gives FewEntries (version, tensor_count, count) (ground (arith, few)))))))))

module _ (p : Printer) where
  read_entry-bounds :
      (s : Source) (key : Bytes) (v : Value) (s' : Source)
      → read_entry p s ≡ done (key, v) s'
      → (s'.retained ≡ s.retained + (length key + length v.display))
        × (s'.retained ≤ max_retained_metadata_bytes)
  unfolding read_entry
  read_entry-bounds s key v s' h =
      bind-then read_key _ s (key, v) s' h
        λ k s1 h1 r1.
          bind-then read_u32 _ s1 (key, v) s' r1
            λ id s2 h2 r2.
              bind-then (under_key k (read_value p id)) _ s2 (key, v) s' r2
                λ x s3 h3 r3.
                  bind-then (retain (length k + length x.display)) _ s3 (key, v) s' r3
                    λ u s4 h4 r4.
                      let kept = retain-bounds (length k + length x.display) s3 s4 h4 in
                      let before = read_key-Keeps s k s1 h1 in
                      let middle = read_u32-Keeps s1 id s2 h2 in
                      let after =
                        read_value-Keeps p id s2 x s3
                          (under_key-done k (read_value p id) s2 x s3 h3) in
                      ground (arith, kept, before, middle, after, r4)

  read_entries-bounds :
      (n : ℕ) (scalars : Map Bytes) (s : Source) (entries : List Entry) (all : Map Bytes)
      (s' : Source)
      → read_entries p n scalars s ≡ done (entries, all) s'
      → s.retained ≤ max_retained_metadata_bytes
      → (length entries ≡ n)
        × (s'.retained ≡ s.retained + held entries)
        × (s'.retained ≤ max_retained_metadata_bytes)
  unfolding read_entries entry_of
  read_entries-bounds zero scalars s entries all s' h few = ground (arith, h, few)
  read_entries-bounds (suc n) scalars s entries all s' h few =
      bind-then (read_entry p) _ s (entries, all) s' h
        λ e s1 h1 r1.
          bind-then (read_entries p n (add_scalar e.0 e.1 scalars)) _ s1 (entries, all) s' r1
            λ rest s2 h2 r2.
              let first = read_entry-bounds s e.0 e.1 s1 h1 in
              let later =
                read_entries-bounds n (add_scalar e.0 e.1 scalars) s1 rest.0 rest.1 s2 h2 first.1 in
              ground (arith, first, later, r2)

  -- The entries of an inspection do not depend on its features.
  shown_metadata :
      (metadata : List Entry) (header : ℕ × ℕ × ℕ) (scalars : Map Bytes) (s : Source)
      (i : Inspection) (s' : Source)
      → (with_trunk header.1 (summary_features (derive scalars) scalars) >>= λ features.
            return (record {
              version = header.0;
              tensor_count = header.1;
              metadata_count = header.2;
              metadata = metadata;
              derived = derive scalars;
              features = features;
            }))
          s
        ≡ done i s'
      → i.metadata ≡ metadata
  shown_metadata metadata header scalars s i s' h =
      bind-then (with_trunk header.1 (summary_features (derive scalars) scalars)) _ s i s' h
        λ features s1 h1 r1. ground (arith, r1)

  -- Whatever the bytes of a file are, an inspection of it that succeeds has at most 4096 entries, and
  -- their keys and values together take at most 2 MiB.
  pub inspect-bounds :
      (file : Bytes) (i : Inspection) (s' : Source)
      → inspect p file ≡ done i s'
      → (length i.metadata ≤ max_metadata_count) × (held i.metadata ≤ max_retained_metadata_bytes)
  unfolding inspect inspect_source meter unmeter
  inspect-bounds file i s' h =
      let start : Source = record { input = file; metered = false; consumed = 0; retained = 0 } in
      bind-then read_header _ start i s' h λ header s1 h1 r1.
        bind-then meter _ s1 i s' r1 λ u s2 h2 r2.
          bind-then (read_entries p header.2 []) _ s2 i s' r2 λ read s3 h3 r3.
            bind-then unmeter _ s3 i s' r3 λ u' s4 h4 r4.
              let few = read_header-FewEntries start header s1 h1 in
              let none_kept : s2.retained ≡ 0 = ground (arith, h2) in
              let kept = read_entries-bounds header.2 [] s2 read.0 read.1 s3 h3 (omega arith) in
              let same : i.metadata ≡ sort_entries read.0 =
                shown_metadata (sort_entries read.0) header read.1 s4 i s' r4 in
              let sizes = sort_entries-sizes read.0 in rw same (omega arith, omega arith)
