-- ===== src/Scheduler/Ledger/Outcome.antt =====
-- backend/internal/scheduler/reservation.go: what the callers of `Acquire` and `Commit` can rely on.
use llama_rack.Base.{
  ℕ, ◌+◌, true, false, ◌≡◌, refl, sym, ap, ◌∙◌, some, List, arith, Bool-cases, ◌&&◌, inl, inr,
  is_nil, subst,
}
use llama_rack.Base.Text.{Text, trim_space}
use llama_rack.Base.Maps.{lookup, put, lookup-put_self}
use llama_rack.Base.Float.{Float64}
use llama_rack.Hardware.{Snapshot}
use llama_rack.Scheduler.Errors.{ok, err, Result-cases, lease_not_pending}
use llama_rack.Scheduler.Placement.{Placement, plan_placement}
use llama_rack.Scheduler.Ledger.{
  AcquireRequest, ResourceOwner, ResourceLease, Ledger, unset, pending, committed,
  resource_owner_key, is_pending, release_owner_locked, sweep_expired, normalize_owner,
  usable_credits, is_expired,
}
use llama_rack.Scheduler.Ledger.Operations.{
  acquire, acquire_for, acquire_planned, allowed_credits, host_allows, instance_of, schedulable,
  record_lease, new_lease, refused_lease, commit, commit_lease,
}
use llama_rack.Scheduler.Ledger.Invariant.{Inv, key_of}
use llama_rack.Scheduler.Ledger.Calls.{commit-Inv}
use llama_rack.Scheduler.Ledger.Sweep.{lookup-sweep_expired, unexpired}

-- What `Acquire` leaves, where it planned on the ledger `before`: a lease that fits, is pending and
-- has entered the ledger, or the placement that does not fit and the ledger as it was.
pub data Outcome (fresh : Text) (stamp : ℕ) (before l' : Ledger) (lease : ResourceLease)
    : Type 0 where
  granted :
      lease.id ≡ fresh
      → lease.state ≡ pending
      → lease.expires_at ≡ stamp + before.ttl
      → lease.placement.fits ≡ true
      → lookup fresh l'.leases ≡ some lease
      → lookup (key_of lease) l'.by_owner ≡ some fresh
      → Outcome fresh stamp before l' lease
  refused :
      lease.state ≡ unset
      → lease.placement.fits ≡ false
      → l' ≡ before
      → Outcome fresh stamp before l' lease

acquire_planned-Outcome :
    (fresh : Text) (stamp : ℕ) (req : AcquireRequest) (owner : ResourceOwner) (victims : List Text)
    (adjusted : Snapshot) (planned : Placement) (l : Ledger)
    → (lease : ResourceLease) × ((acquire_planned fresh stamp req owner victims adjusted planned
          l).1
        ≡ ok lease)
      × (lease.owner ≡ owner)
      × Outcome fresh stamp l
          (acquire_planned fresh stamp req owner victims adjusted planned l).0
          lease
unfolding acquire_planned new_lease refused_lease record_lease
acquire_planned-Outcome fresh stamp req owner victims adjusted planned l =
    elim (Bool-cases (planned.fits && host_allows adjusted req.host_ram)) [
      | inl e ↦ rw e (
        _,
        refl,
        refl,
        granted refl refl refl refl (lookup-put_self fresh _ l.leases)
            (lookup-put_self (resource_owner_key owner) fresh l.by_owner),
      )
      | inr e ↦ rw e (_, refl, refl, refused refl refl refl)
    ]

acquire_for-Outcome :
    (fl : Float64) (fresh : Text) (stamp : ℕ) (req : AcquireRequest) (owner : ResourceOwner)
    (l : Ledger) (lease : ResourceLease)
    → (acquire_for fl fresh stamp req owner l).1 ≡ ok lease
    → (lease.owner ≡ owner) × Outcome fresh stamp l (acquire_for fl fresh stamp req owner l).0 lease
unfolding acquire_for
acquire_for-Outcome fl fresh stamp req owner l lease h =
    let credits = allowed_credits owner req.credits in
    let victims = (usable_credits l (instance_of owner) credits).victims in
    let adjusted =
      schedulable l (resource_owner_key owner) (instance_of owner) credits req.snapshot in
    elim (Result-cases (plan_placement fl adjusted req.placement)) [
      | inr (_, e) ↦ absurd (ground arith)
      | inl (planned, e) ↦
          let (it, made, owned, outcome) =
            acquire_planned-Outcome fresh stamp req owner victims adjusted planned l in
          let same : it ≡ lease = ground arith in
          subst
            (λ o.
              (o.owner ≡ owner)
              × Outcome fresh stamp l (acquire_for fl fresh stamp req owner l).0 o)
            same (rw (e, acquire_for) (owned, outcome))
    ]

-- A lease that `Acquire` returns either fits and has entered the ledger, under the fresh id and its
-- owner's key, pending until the time to live has passed; or it is the unset lease of a placement
-- that does not fit, and the ledger only lost expired leases and the owner's old one.
pub acquire-Outcome :
    (fl : Float64) (now : ℕ) (fresh : Text) (stamp : ℕ) (req : AcquireRequest) (l : Ledger)
    (lease : ResourceLease)
    → (acquire fl now fresh stamp req l).1 ≡ ok lease
    → Outcome fresh stamp
        (release_owner_locked lease.owner (sweep_expired now l))
        (acquire fl now fresh stamp req l).0
        lease
unfolding acquire
acquire-Outcome fl now fresh stamp req l lease h =
    let swept = sweep_expired now l in
    elim (Bool-cases (
      is_nil (trim_space req.owner.kind)
      && is_nil (trim_space req.owner.id)
      && is_nil (trim_space req.instance_id))) [
        | inl e ↦ absurd (ground arith)
        | inr e ↦ elim (Result-cases (normalize_owner req.owner req.instance_id)) [
          | inr (_, o) ↦ absurd (ground arith)
          | inl (owner, o) ↦
              let before = release_owner_locked owner swept in
              let (same, outcome) =
                acquire_for-Outcome fl fresh stamp req owner before lease (ground arith) in
              subst
                (λ w.
                  Outcome fresh stamp (release_owner_locked w swept)
                    (acquire fl now fresh stamp req l).0 lease)
                (sym same) (rw (e, o, acquire) outcome)
        ]
      ]

abbrev as_committed : ResourceLease → ResourceLease
as_committed lease = record lease { state = committed; expires_at = 0 }

commit-pending :
    (id : Text) (l : Ledger) (lease : ResourceLease)
    → lookup id l.leases ≡ some lease
    → lease.state ≡ pending
    → commit id l ≡ (record l { leases = put id (as_committed lease) l.leases }, ok tt)
unfolding commit commit_lease is_pending
commit-pending id l lease found waiting = rw (found, commit) (rw (waiting, is_pending) refl)

commit-committed :
    (id : Text) (l : Ledger) (lease : ResourceLease)
    → lookup id l.leases ≡ some lease
    → lease.state ≡ committed
    → commit id l ≡ (l, err lease_not_pending)
unfolding commit commit_lease is_pending
commit-committed id l lease found done = rw (found, commit) (rw (done, is_pending) refl)

unexpired-committed :
    (now : ℕ) (lease : ResourceLease)
    → unexpired now (some (as_committed lease)) ≡ some (as_committed lease)
unfolding is_expired is_pending
unexpired-committed now lease = refl

-- A pending lease is committed once: then no sweep takes it away, and a second commitment fails.
pub commit_once :
    (id : Text) (l : Ledger) (lease : ResourceLease)
    → Inv l
    → lookup id l.leases ≡ some lease
    → lease.state ≡ pending
    → let l' = (commit id l).0 in
      ((commit id l).1 ≡ ok tt)
      × ((now : ℕ)
          → lookup id (sweep_expired now l').leases
            ≡ some (record lease { state = committed; expires_at = 0 }))
      × (commit id l' ≡ (l', err lease_not_pending))
commit_once id l lease inv found waiting =
    let e = commit-pending id l lease found waiting in
    let there : lookup id (commit id l).0.leases ≡ some (as_committed lease) =
      ap (λ r. lookup id r.0.leases) e ∙ lookup-put_self id (as_committed lease) l.leases in
    (
      ap (λ r. r.1) e,
      λ now.
          lookup-sweep_expired now (commit id l).0 id (commit-Inv id l inv)
          ∙ ap (unexpired now) there
          ∙ unexpired-committed now lease,
      commit-committed id (commit id l).0 (as_committed lease) there refl,
    )
