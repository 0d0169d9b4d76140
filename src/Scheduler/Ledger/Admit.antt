-- ===== src/Scheduler/Ledger/Admit.antt =====
-- backend/internal/scheduler/reservation.go: a new lease and a commitment keep the maps in agreement.
use llama_rack.Base.{
  false, ◌≡◌, sym, ap, subst, ◌∙◌, none, some, List, [], ◌∷◌, arith, All, All-map, Bool-cases, inl,
  inr, is_nil,
}
use llama_rack.Base.Text.{Text, text_eq, text_eq_iff}
use llama_rack.Base.Maps.{
  Map, lookup, put, lookup-put_self, lookup-put_ne, lookup-put_found, put-Distinct, All-put,
}
use llama_rack.Scheduler.Ledger.{ResourceLease, Ledger, resource_owner_key}
use llama_rack.Scheduler.Ledger.Operations.{record_lease, claim_all}
use llama_rack.Scheduler.Ledger.Invariant.{Inv, IsLive, key_of, is_nil-live}

named-ne : (id : Text) → is_nil id ≡ false → text_eq id [] ≡ false
named-ne [] h = cc
named-ne (c ∷ id) h = ground (arith, text_eq_iff (c ∷ id) [])

-- A lease under a new id whose owner has none.
pub record IsNew (lease : ResourceLease) (l : Ledger) : Type 0 where
  pub fresh : lookup lease.id l.leases ≡ none
  pub id_given : is_nil lease.id ≡ false
  pub owner_free : lookup (key_of lease) l.by_owner ≡ none

module _ (l : Ledger) (inv : Inv l) (lease : ResourceLease) (victims : List Text)
    (new : IsNew lease l) where
  abbrev recorded : Ledger
  recorded = record_lease lease victims l

  -- A lease that was there is still there.
  kept :
      (j : Text) (other : ResourceLease)
      → lookup j l.leases ≡ some other
      → lookup j (put lease.id lease l.leases) ≡ some other
  kept j other h = elim (Bool-cases (text_eq lease.id j)) [
    | inl same ↦ absurd (ground (arith, new.fresh, text_eq_iff lease.id j))
    | inr apart ↦ lookup-put_ne lease.id j lease l.leases apart ∙ h
  ]

  recorded-owned :
      (k j : Text)
      → lookup k (put (key_of lease) lease.id l.by_owner) ≡ some j
      → (other : ResourceLease) × (lookup j (put lease.id lease l.leases) ≡ some other)
        × (key_of other ≡ k)
  recorded-owned k j h = elim (lookup-put_found (key_of lease) k lease.id l.by_owner h) [
    | inl (keyed, same) ↦ (
      lease,
      subst (λ i. lookup i (put lease.id lease l.leases) ≡ some lease) same
          (lookup-put_self lease.id lease l.leases),
      keyed,
    )
    | inr (_, old) ↦
        let (other, there, keyed) = inv.owned k j old in (other, kept j other there, keyed)
  ]

  recorded-indexed :
      (j : Text) (other : ResourceLease)
      → lookup j (put lease.id lease l.leases) ≡ some other
      → lookup (key_of other) (put (key_of lease) lease.id l.by_owner) ≡ some j
  recorded-indexed j other h = elim (lookup-put_found lease.id j lease l.leases h) [
    | inl (same, it) ↦
        subst (λ o. lookup (key_of o) (put (key_of lease) lease.id l.by_owner) ≡ some j) it
          (lookup-put_self (key_of lease) lease.id l.by_owner ∙ ap some same)
    | inr (_, old) ↦
        let entry = inv.indexed j other old in
        elim (Bool-cases (text_eq (key_of lease) (key_of other))) [
          | inl clash ↦
              absurd
                (ground (arith, entry, new.owner_free, text_eq_iff (key_of lease) (key_of other)))
          | inr apart ↦
              lookup-put_ne (key_of lease) (key_of other) lease.id l.by_owner apart ∙ entry
        ]
  ]

  recorded-claims :
      (fewer : List Text) (claimed : Map Text)
      → All (λ e. IsLive recorded e.1) claimed
      → All (λ e. IsLive recorded e.1) (claim_all lease.id fewer claimed)
  unfolding claim_all record_lease
  recorded-claims [] claimed h = h
  recorded-claims (victim ∷ fewer) claimed h = recorded-claims fewer (put victim lease.id claimed) (
      All-put (λ e. IsLive recorded e.1) victim lease.id claimed
        (λ _. (lease, lookup-put_self lease.id lease l.leases)) h)

  pub record_lease-Inv : Inv recorded
  unfolding record_lease
  record_lease-Inv = record {
    owned = recorded-owned;
    indexed = recorded-indexed;
    named = λ j other h. elim (lookup-put_found lease.id j lease l.leases h) [
      | inl (same, it) ↦ ap (λ o. o.id) (sym it) ∙ same
      | inr (_, old) ↦ inv.named j other old
    ];
    unnamed = empty_id;
    claims = recorded-claims victims l.claimed (
        All-map (λ e. IsLive l e.1) (λ e. IsLive recorded e.1) l.claimed
          (λ e (other, there). (other, kept e.1 other there)) inv.claims);
    distinct = put-Distinct lease.id lease l.leases inv.distinct;
  }
    where
      empty_id : lookup [] (put lease.id lease l.leases) ≡ none
      empty_id =
          lookup-put_ne lease.id [] lease l.leases (named-ne lease.id new.id_given) ∙ inv.unnamed

-- Changing a lease without its id and its owner.
module _ (l : Ledger) (inv : Inv l) (id : Text) (lease changed : ResourceLease)
    (found : lookup id l.leases ≡ some lease) (same_id : changed.id ≡ lease.id)
    (same_owner : changed.owner ≡ lease.owner) where
  abbrev rewritten : Ledger
  rewritten = record l { leases = put id changed l.leases }

  rewritten-IsLive : (j : Text) → IsLive l j → IsLive rewritten j
  rewritten-IsLive j (other, there) = elim (Bool-cases (text_eq id j)) [
    | inl same ↦
        let e : id ≡ j = (text_eq_iff id j).0 same in
        (
          changed,
          subst (λ i. lookup i (put id changed l.leases) ≡ some changed) e
              (lookup-put_self id changed l.leases),
        )
    | inr apart ↦ (other, lookup-put_ne id j changed l.leases apart ∙ there)
  ]

  rewritten-owned :
      (k j : Text)
      → lookup k l.by_owner ≡ some j
      → (other : ResourceLease) × (lookup j rewritten.leases ≡ some other) × (key_of other ≡ k)
  rewritten-owned k j h =
      let (other, there, keyed) = inv.owned k j h in
      elim (Bool-cases (text_eq id j)) [
        | inl same ↦
            let e : id ≡ j = (text_eq_iff id j).0 same in
            let it : other ≡ lease = cc (there, found, ap (λ i. lookup i l.leases) e) in
            (
              changed,
              subst (λ i. lookup i (put id changed l.leases) ≡ some changed) e
                  (lookup-put_self id changed l.leases),
              ap resource_owner_key (same_owner ∙ ap (λ o. o.owner) (sym it)) ∙ keyed,
            )
        | inr apart ↦ (other, lookup-put_ne id j changed l.leases apart ∙ there, keyed)
      ]

  rewritten-indexed :
      (j : Text) (other : ResourceLease)
      → lookup j rewritten.leases ≡ some other
      → (lookup (key_of other) l.by_owner ≡ some j) × (other.id ≡ j)
  rewritten-indexed j other h = elim (lookup-put_found id j changed l.leases h) [
    | inl (same, it) ↦ (
      ap (λ o. lookup (resource_owner_key o) l.by_owner) (ap (λ o. o.owner) (sym it) ∙ same_owner)
          ∙ inv.indexed id lease found
          ∙ ap some same,
      ap (λ o. o.id) (sym it) ∙ same_id ∙ inv.named id lease found ∙ same,
    )
    | inr (_, old) ↦ (inv.indexed j other old, inv.named j other old)
  ]

  pub rewritten-Inv : Inv rewritten
  rewritten-Inv = record {
    owned = rewritten-owned;
    indexed = λ j other h. (rewritten-indexed j other h).0;
    named = λ j other h. (rewritten-indexed j other h).1;
    unnamed =
        lookup-put_ne id [] changed l.leases (named-ne id (is_nil-live l inv id (lease, found)))
        ∙ inv.unnamed;
    claims =
        All-map (λ e. IsLive l e.1) (λ e. IsLive rewritten e.1) l.claimed
          (λ e live. rewritten-IsLive e.1 live) inv.claims;
    distinct = put-Distinct id changed l.leases inv.distinct;
  }
