-- ===== src/Scheduler/Ledger/Sweep.antt =====
-- backend/internal/scheduler/reservation.go: what a sweep removes.
use llama_rack.Base.{
  ℕ, ◌≡◌, refl, ◌∙◌, Option, none, some, [], ◌∷◌, arith, Bool-cases, inl, inr, if◌then◌else◌, ltb,
  ◌&&◌, ◌==◌, not,
}
use llama_rack.Base.Text.{Text, text_eq_iff}
use llama_rack.Base.Maps.{Map, lookup, Distinct}
use llama_rack.Scheduler.Ledger.{
  ResourceLease, Ledger, LeaseState, unset, pending, committed, is_pending, is_expired, sweep_from,
  sweep_expired, release_locked,
}
use llama_rack.Scheduler.Ledger.Invariant.{Inv, release_locked-Inv, lookup-release_locked}

-- What a sweep leaves of an entry: nothing of a pending lease that has a time which has passed.
abbrev pub unexpired : ℕ → Option ResourceLease → Option ResourceLease
unexpired now none = none
unexpired now (some lease) = elim lease.state [
  | pending ↦ if ltb 0 lease.expires_at && ltb lease.expires_at now then none else some lease
  | committed ↦ some lease
  | unset ↦ some lease
]

unexpired-is_expired :
    (now : ℕ) (lease : ResourceLease)
    → (if is_expired now lease then none else some lease) ≡ unexpired now (some lease)
unfolding is_expired is_pending
unexpired-is_expired now lease = go lease.state
  where
    go :
        (state : LeaseState)
        → (if is_pending state && not (lease.expires_at == 0) && ltb lease.expires_at now
            then none
            else some lease)
          ≡ elim state [
            | pending ↦
                if ltb 0 lease.expires_at && ltb lease.expires_at now then none else some lease
            | committed ↦ some lease
            | unset ↦ some lease
          ]
    go pending = ground arith
    go committed = refl
    go unset = refl

sweep_from-Inv : (now : ℕ) (m : Map ResourceLease) (l : Ledger) → Inv l → Inv (sweep_from now m l)
unfolding sweep_from
sweep_from-Inv now [] l inv = inv
sweep_from-Inv now ((id, lease) ∷ rest) l inv = elim (Bool-cases (is_expired now lease)) [
  | inl e ↦ rw e (sweep_from-Inv now rest (release_locked id l) (release_locked-Inv id l inv))
  | inr e ↦ rw e (sweep_from-Inv now rest l inv)
]

pub sweep_expired-Inv : (now : ℕ) (l : Ledger) → Inv l → Inv (sweep_expired now l)
unfolding sweep_expired
sweep_expired-Inv now l inv = sweep_from-Inv now l.leases l inv

-- What is left of `current` behind a loop that meets `entry`.
abbrev after_entry : ℕ → Option ResourceLease → Option ResourceLease → Option ResourceLease
after_entry now none current = current
after_entry now (some lease) current = if is_expired now lease then none else current

-- The loop removes the entries that it meets and that have expired.
lookup-sweep_from :
    (now : ℕ) (m : Map ResourceLease) (l : Ledger) (j : Text)
    → Distinct m
    → Inv l
    → lookup j (sweep_from now m l).leases ≡ after_entry now (lookup j m) (lookup j l.leases)
unfolding sweep_from lookup
lookup-sweep_from now [] l j h inv = refl
lookup-sweep_from now ((id, lease) ∷ rest) l j h inv = ground (
  arith,
  lookup-sweep_from now rest (release_locked id l) j h.1 (release_locked-Inv id l inv),
  lookup-sweep_from now rest l j h.1 inv,
  lookup-release_locked id j l inv,
  text_eq_iff id j,
)

-- A sweep removes the pending leases whose time is set and is before the instant of the sweep, and
-- keeps every other lease as it is.
pub lookup-sweep_expired :
    (now : ℕ) (l : Ledger) (j : Text)
    → Inv l
    → lookup j (sweep_expired now l).leases ≡ unexpired now (lookup j l.leases)
unfolding sweep_expired
lookup-sweep_expired now l j inv =
    lookup-sweep_from now l.leases l j inv.distinct inv ∙ same (lookup j l.leases)
  where
    same : (found : Option ResourceLease) → after_entry now found found ≡ unexpired now found
    same none = refl
    same (some lease) = unexpired-is_expired now lease
