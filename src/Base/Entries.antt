-- ===== src/Base/Entries.antt =====
-- Maps as lists of entries: their sizes, and the entries that pass a test.
use llama_rack.Base.{
  suc, ◌≤◌, ◌<◌, ◌≡◌, refl, Bool, true, none, some, List, [], ◌∷◌, arith, not, keep, length,
}
use llama_rack.Base.Text.{Text, text_eq, text_eq_iff}
use llama_rack.Base.Maps.{Map, lookup, put, delete, Distinct}

pub length-keep {ℓ} : {A : Type ℓ} (p : A → Bool) (xs : List A) → length (keep p xs) ≤ length xs
unfolding keep
length-keep p [] = omega arith
length-keep p (x ∷ xs) = ground (arith, length-keep p xs)

module _ {V : Type 0} where
  pub length-put_new :
      (k : Text) (v : V) (m : Map V) → lookup k m ≡ none → length (put k v m) ≡ suc (length m)
  unfolding lookup put
  length-put_new k v [] h = refl
  length-put_new k v ((j, w) ∷ m) h = ground (arith, length-put_new k v m)

  pub length-put_found :
      (k : Text) (v : V) (m : Map V) {w : V} → lookup k m ≡ some w → length (put k v m) ≡ length m
  unfolding lookup put
  length-put_found k v [] h = ground arith
  length-put_found k v ((j, u) ∷ m) {w = w} h = ground (arith, length-put_found k v m {w = w})

  pub length-delete : (k : Text) (m : Map V) → length (delete k m) ≤ length m
  unfolding delete
  length-delete k m = length-keep (λ e. not (text_eq e.0 k)) m

  pub length-delete_found :
      (k : Text) (m : Map V) {v : V} → lookup k m ≡ some v → length (delete k m) < length m
  unfolding lookup delete keep
  length-delete_found k [] h = ground arith
  length-delete_found k ((j, w) ∷ m) {v = v} h =
      ground (arith, length-delete_found k m {v = v}, length-keep (λ e. not (text_eq e.0 k)) m)

  -- An entry that passes is found as before, and a key that is missing stays missing.
  pub lookup-keep :
      (p : Text × V → Bool) (k : Text) (m : Map V) {v : V}
      → lookup k m ≡ some v
      → p (k, v) ≡ true
      → lookup k (keep p m) ≡ some v
  unfolding lookup keep
  lookup-keep p k [] h t = ground arith
  lookup-keep p k ((j, w) ∷ m) {v = v} h t =
      ground (arith, lookup-keep p k m {v = v}, text_eq_iff j k)

  pub lookup-keep_missing :
      (p : Text × V → Bool) (k : Text) (m : Map V) → lookup k m ≡ none → lookup k (keep p m) ≡ none
  unfolding lookup keep
  lookup-keep_missing p k [] h = refl
  lookup-keep_missing p k ((j, w) ∷ m) h = ground (arith, lookup-keep_missing p k m)

  pub keep-Distinct : (p : Text × V → Bool) (m : Map V) → Distinct m → Distinct (keep p m)
  unfolding keep
  keep-Distinct p [] h = tt
  keep-Distinct p ((j, w) ∷ m) h = ground (arith, keep-Distinct p m h.1, lookup-keep_missing p j m)
