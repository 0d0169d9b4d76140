-- ===== src/Base/Maps.antt =====
-- Go maps with text keys, as association lists in which a key stands once.
use llama_rack.Base.{
  ◌≡◌, refl, Option, none, some, List, [], ◌∷◌, arith, if◌then◌else◌, not, keep, ◌⊎◌, false, All,
}
use llama_rack.Base.Text.{Text, text_eq, text_eq_iff, text_eq_refl}

abbrev pub Map : Type 0 → Type 0
Map V = List (Text × V)

module _ {V : Type 0} where
  -- m[k], with its second result.
  unfoldable pub lookup : Text → Map V → Option V
  lookup k [] = none
  lookup k ((j, v) ∷ m) = if text_eq j k then some v else lookup k m

  -- m[k], where a missing key gives the zero value `d`.
  abbrev pub lookup_or : V → Text → Map V → V
  lookup_or d k m = elim (lookup k m) [ none ↦ d | some v ↦ v ]

  -- m[k] = v.
  unfoldable pub put : Text → V → Map V → Map V
  put k v [] = (k, v) ∷ []
  put k v ((j, w) ∷ m) = if text_eq j k then (j, v) ∷ m else (j, w) ∷ put k v m

  -- delete(m, k).
  unfoldable pub delete : Text → Map V → Map V
  delete k m = keep (λ e. not (text_eq e.0 k)) m

  pub lookup-put :
      (k j : Text) (v : V) (m : Map V)
      → lookup j (put k v m) ≡ (if text_eq k j then some v else lookup j m)
  unfolding lookup put
  lookup-put k j v [] = refl
  lookup-put k j v ((i, w) ∷ m) =
      ground (arith, text_eq_iff k j, text_eq_iff i k, text_eq_iff i j, lookup-put k j v m)

  pub lookup-delete :
      (k j : Text) (m : Map V) → lookup j (delete k m) ≡ (if text_eq k j then none else lookup j m)
  unfolding lookup delete keep
  lookup-delete k j [] = ground arith
  lookup-delete k j ((i, w) ∷ m) =
      ground (arith, text_eq_iff k j, text_eq_iff i k, text_eq_iff i j, lookup-delete k j m)

module _ {V : Type 0} where
  pub lookup-put_self : (k : Text) (v : V) (m : Map V) → lookup k (put k v m) ≡ some v
  lookup-put_self k v m = rw (lookup-put k k v m, text_eq_refl k)

  pub lookup-put_ne :
      (k j : Text) (v : V) (m : Map V) → text_eq k j ≡ false → lookup j (put k v m) ≡ lookup j m
  lookup-put_ne k j v m h = rw (lookup-put k j v m, h)

  pub lookup-delete_self : (k : Text) (m : Map V) → lookup k (delete k m) ≡ none
  lookup-delete_self k m = rw (lookup-delete k k m, text_eq_refl k)

  -- What is found behind a deletion stood under another key.
  pub lookup-delete_found :
      (k j : Text) (m : Map V) {v : V}
      → lookup j (delete k m) ≡ some v
      → (text_eq k j ≡ false) × (lookup j m ≡ some v)
  lookup-delete_found k j m h = ground (arith, lookup-delete k j m)

  -- What is found behind a write is the value written, or stood under another key.
  pub lookup-put_found :
      (k j : Text) (w : V) (m : Map V) {v : V}
      → lookup j (put k w m) ≡ some v
      → ((k ≡ j) × (w ≡ v)) ⊎ ((text_eq k j ≡ false) × (lookup j m ≡ some v))
  lookup-put_found k j w m h = ground (arith, lookup-put k j w m, text_eq_iff k j)

  -- Each key stands once.
  abbrev pub Distinct : Map V → Type 0
  Distinct [] = Unit
  Distinct ((k, v) ∷ m) = (lookup k m ≡ none) × Distinct m

  pub put-Distinct : (k : Text) (v : V) (m : Map V) → Distinct m → Distinct (put k v m)
  unfolding put lookup
  put-Distinct k v [] h = (refl, tt)
  put-Distinct k v ((j, w) ∷ m) h =
      ground (arith, put-Distinct k v m h.1, lookup-put k j v m, text_eq_iff j k, text_eq_iff k j)

  pub delete-Distinct : (k : Text) (m : Map V) → Distinct m → Distinct (delete k m)
  unfolding delete keep
  delete-Distinct k [] h = tt
  delete-Distinct k ((j, w) ∷ m) h = ground (arith, delete-Distinct k m h.1, lookup-delete k j m)

  pub All-put {κ} :
      (P : Text × V → Type κ) (k : Text) (v : V) (m : Map V)
      → ((j : Text) → P (j, v))
      → All P m
      → All P (put k v m)
  unfolding put
  All-put P k v [] p h = (p k, tt)
  All-put P k v ((j, w) ∷ m) p h = ground (arith, p j, All-put P k v m p h.1)
