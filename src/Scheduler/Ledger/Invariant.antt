-- ===== src/Scheduler/Ledger/Invariant.antt =====
-- backend/internal/scheduler/reservation.go: the maps of the ledger agree.
use llama_rack.Base.{
  false, ◌≡◌, refl, sym, ap, subst, ◌∙◌, none, some, [], ◌∷◌, arith, All, Bool-cases, Option-cases,
  inl, inr, is_nil, if◌then◌else◌, not, keep,
}
use llama_rack.Base.Text.{Text, text_eq, text_eq_iff, text_eq_refl}
use llama_rack.Base.Maps.{
  Map, lookup, lookup_or, delete, lookup-delete_found, lookup-delete, lookup-delete_self, Distinct,
  delete-Distinct,
}
use llama_rack.Scheduler.Ledger.{
  ResourceOwner, ResourceLease, Ledger, resource_owner_key, release_locked, release_owner_locked,
}

abbrev pub key_of : ResourceLease → Text
key_of lease = resource_owner_key lease.owner

abbrev pub IsLive : Ledger → Text → Type 0
IsLive l id = (lease : ResourceLease) × (lookup id l.leases ≡ some lease)

-- The owner index and the leases say the same, every lease stands under its own id, and every claim
-- is a live lease's.
pub record Inv (l : Ledger) : Type 0 where
  pub owned :
      (k id : Text)
      → lookup k l.by_owner ≡ some id
      → (lease : ResourceLease) × (lookup id l.leases ≡ some lease) × (key_of lease ≡ k)
  pub indexed :
      (id : Text) (lease : ResourceLease)
      → lookup id l.leases ≡ some lease
      → lookup (key_of lease) l.by_owner ≡ some id
  pub named : (id : Text) (lease : ResourceLease) → lookup id l.leases ≡ some lease → lease.id ≡ id
  pub unnamed : lookup [] l.leases ≡ none
  pub claims : All (λ e. IsLive l e.1) l.claimed
  pub distinct : Distinct l.leases

-- Releasing a lease that is there.
module _ (l : Ledger) (inv : Inv l) (id : Text) (lease : ResourceLease)
    (found : lookup id l.leases ≡ some lease) where
  abbrev released : Ledger
  released = record l {
    leases = delete id l.leases;
    by_owner = delete (key_of lease) l.by_owner;
    claimed = keep (λ e. not (text_eq e.1 id)) l.claimed;
  }

  released-eq : release_locked id l ≡ released
  unfolding release_locked
  released-eq = ground (arith, found, inv.indexed id lease found, text_eq_refl id)

  -- Another lease stays.
  released-lookup :
      (j : Text) → text_eq id j ≡ false → lookup j (delete id l.leases) ≡ lookup j l.leases
  released-lookup j h = rw (lookup-delete id j l.leases, h)

  released-owned :
      (k j : Text)
      → lookup k released.by_owner ≡ some j
      → (other : ResourceLease) × (lookup j released.leases ≡ some other) × (key_of other ≡ k)
  released-owned k j h =
      let (differs, old) = lookup-delete_found (key_of lease) k l.by_owner h in
      let (other, there, keyed) = inv.owned k j old in
      elim (Bool-cases (text_eq id j)) [
        | inl same ↦
            let e : id ≡ j = (text_eq_iff id j).0 same in
            absurd (ground (arith, text_eq_iff (key_of lease) k))
        | inr other_id ↦ (other, released-lookup j other_id ∙ there, keyed)
      ]

  released-indexed :
      (j : Text) (other : ResourceLease)
      → lookup j released.leases ≡ some other
      → lookup (key_of other) released.by_owner ≡ some j
  released-indexed j other h =
      let (differs, there) = lookup-delete_found id j l.leases h in
      let own = inv.indexed id lease found in
      let theirs = inv.indexed j other there in
      elim (Bool-cases (text_eq (key_of lease) (key_of other))) [
        | inl same ↦ absurd (
            ground
              (arith, own, theirs, text_eq_iff (key_of lease) (key_of other), text_eq_iff id j))
        | inr apart ↦ rw (lookup-delete (key_of lease) (key_of other) l.by_owner, apart) theirs
      ]

  released-claims :
      (claimed : Map Text)
      → All (λ e. IsLive l e.1) claimed
      → All (λ e. IsLive released e.1) (keep (λ e. not (text_eq e.1 id)) claimed)
  unfolding keep
  released-claims [] h = tt
  released-claims ((victim, j) ∷ claimed) h =
      let rest = released-claims claimed h.1 in
      let (other, there) = h.0 in
      elim (Bool-cases (text_eq j id)) [
        | inl same ↦ rw same rest
        | inr apart ↦ rw apart (
          (other, released-lookup j (ground (arith, text_eq_iff id j, text_eq_iff j id)) ∙ there),
          rest,
        )
      ]

  released-Inv : Inv released
  released-Inv = record {
    owned = released-owned;
    indexed = released-indexed;
    named = λ j other h. inv.named j other (lookup-delete_found id j l.leases h).1;
    unnamed = ground (arith, lookup-delete id [] l.leases, inv.unnamed);
    claims = released-claims l.claimed inv.claims;
    distinct = delete-Distinct id l.leases inv.distinct;
  }

pub release_locked-Inv : (id : Text) (l : Ledger) → Inv l → Inv (release_locked id l)
unfolding release_locked
release_locked-Inv id l inv = elim (Option-cases (lookup id l.leases)) [
  | inl e ↦ rw (e, release_locked) inv
  | inr (lease, e) ↦ subst Inv (sym (released-eq l inv id lease e)) (released-Inv l inv id lease e)
]

release_locked-absent :
    (id : Text) (l : Ledger) → lookup id l.leases ≡ none → release_locked id l ≡ l
unfolding release_locked
release_locked-absent id l e = rw (e, release_locked)

pub is_nil-live : (l : Ledger) → Inv l → (id : Text) → IsLive l id → is_nil id ≡ false
is_nil-live l inv [] (lease, e) = absurd (ground (arith, inv.unnamed))
is_nil-live l inv (c ∷ id) live = refl

-- What release leaves: every other lease, and nothing under the id.
pub lookup-release_locked :
    (id j : Text) (l : Ledger)
    → Inv l
    → lookup j (release_locked id l).leases ≡ (if text_eq id j then none else lookup j l.leases)
lookup-release_locked id j l inv = elim (Option-cases (lookup id l.leases)) [
  | inl e ↦ ap (λ m. lookup j m.leases) (release_locked-absent id l e) ∙ absent e
  | inr (lease, e) ↦
      ap (λ m. lookup j m.leases) (released-eq l inv id lease e) ∙ lookup-delete id j l.leases
]
  where
    absent :
        lookup id l.leases ≡ none
        → lookup j l.leases ≡ (if text_eq id j then none else lookup j l.leases)
    absent e = ground (arith, text_eq_iff id j)

pub release_owner_locked-Inv :
    (owner : ResourceOwner) (l : Ledger) → Inv l → Inv (release_owner_locked owner l)
unfolding release_owner_locked
release_owner_locked-Inv owner l inv =
    let id = lookup_or [] (resource_owner_key owner) l.by_owner in
    elim (Bool-cases (is_nil id)) [ inl e ↦ rw e inv | inr e ↦ rw e (release_locked-Inv id l inv) ]

-- Releasing an owner releases the lease that its entry names.
release_owner_locked-eq :
    (owner : ResourceOwner) (l : Ledger) (id : Text)
    → Inv l
    → lookup (resource_owner_key owner) l.by_owner ≡ some id
    → release_owner_locked owner l ≡ release_locked id l
unfolding release_owner_locked
release_owner_locked-eq owner l id inv e =
    let (lease, found, _) = inv.owned (resource_owner_key owner) id e in
    ground (arith, is_nil-live l inv id (lease, found))

release_owner_locked-none :
    (owner : ResourceOwner) (l : Ledger)
    → lookup (resource_owner_key owner) l.by_owner ≡ none
    → release_owner_locked owner l ≡ l
unfolding release_owner_locked
release_owner_locked-none owner l e = ground arith

-- The owner's entry is gone.
pub release_owner_locked-owner :
    (owner : ResourceOwner) (l : Ledger)
    → Inv l
    → lookup (resource_owner_key owner) (release_owner_locked owner l).by_owner ≡ none
release_owner_locked-owner owner l inv =
    let key = resource_owner_key owner in
    elim (Option-cases (lookup key l.by_owner)) [
      | inl e ↦ ap (λ m. lookup key m.by_owner) (release_owner_locked-none owner l e) ∙ e
      | inr (id, e) ↦
          let (lease, found, keyed) = inv.owned key id e in
          ap (λ m. lookup key m.by_owner)
            (release_owner_locked-eq owner l id inv e ∙ released-eq l inv id lease found)
          ∙ ap (λ k. lookup key (delete k l.by_owner)) keyed
          ∙ lookup-delete_self key l.by_owner
    ]

-- A release takes leases away and adds none.
pub release_owner_locked-fewer :
    (owner : ResourceOwner) (l : Ledger) (j : Text)
    → Inv l
    → lookup j l.leases ≡ none
    → lookup j (release_owner_locked owner l).leases ≡ none
release_owner_locked-fewer owner l j inv h =
    let key = resource_owner_key owner in
    elim (Option-cases (lookup key l.by_owner)) [
      | inl e ↦ ap (λ m. lookup j m.leases) (release_owner_locked-none owner l e) ∙ h
      | inr (id, e) ↦
          ap (λ m. lookup j m.leases) (release_owner_locked-eq owner l id inv e)
          ∙ ground (arith, lookup-release_locked id j l inv)
    ]
