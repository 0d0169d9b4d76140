-- ===== src/Scheduler/Ledger/History.antt =====
-- backend/internal/scheduler/reservation.go: every ledger that a history of calls can reach.
use llama_rack.Base.{ℕ, ◌≡◌, refl, ap, some}
use llama_rack.Base.Text.{Text}
use llama_rack.Base.Maps.{lookup}
use llama_rack.Base.Float.{Float64}
use llama_rack.Scheduler.Ledger.{
  AcquireRequest, ResourceOwner, ResourceLease, Ledger, sweep_expired, new_ledger_with_ttl,
}
use llama_rack.Scheduler.Ledger.Operations.{
  acquire, commit, commit_owner, commit_instance, release, release_owner, release_instance,
}
use llama_rack.Scheduler.Ledger.Invariant.{Inv, release_locked-Inv}
use llama_rack.Scheduler.Ledger.Sweep.{sweep_expired-Inv}
use llama_rack.Scheduler.Ledger.Calls.{
  IsFresh, acquire-Inv, acquire_runtime-Inv, commit-Inv, commit_owner-Inv, commit_instance-Inv,
  release_owner-Inv, release_instance-Inv,
}
use llama_rack.Scheduler.Runtime.Admission.{RuntimeAcquireRequest, acquire_runtime}

-- One call. The readers `Get`, `Pending`, `All` and `PlanningSnapshot` change what a sweep changes.
pub data Step (fl : Float64) (l : Ledger) : Ledger → Type 0 where
  acquires :
      (now : ℕ) (fresh : Text) (stamp : ℕ) (req : AcquireRequest)
      → IsFresh fresh l
      → Step fl l (acquire fl now fresh stamp req l).0
  acquires_runtime :
      (now : ℕ) (fresh : Text) (stamp : ℕ) (req : RuntimeAcquireRequest)
      → IsFresh fresh l
      → Step fl l (acquire_runtime fl now fresh stamp req l).0
  commits : (id : Text) → Step fl l (commit id l).0
  commits_owner : (owner : ResourceOwner) → Step fl l (commit_owner owner l).0
  commits_instance : (instance_id : Text) → Step fl l (commit_instance instance_id l).0
  releases : (id : Text) → Step fl l (release id l)
  releases_owner : (owner : ResourceOwner) → Step fl l (release_owner owner l)
  releases_instance : (instance_id : Text) → Step fl l (release_instance instance_id l)
  sweeps : (now : ℕ) → Step fl l (sweep_expired now l)

pub data Reach (fl : Float64) : Ledger → Type 0 where
  start : (ttl : ℕ) → Reach fl (new_ledger_with_ttl ttl)
  next : {l l' : Ledger} → Reach fl l → Step fl l l' → Reach fl l'

start-Inv : (ttl : ℕ) → Inv (new_ledger_with_ttl ttl)
unfolding new_ledger_with_ttl lookup
start-Inv ttl = record {
  owned = λ k id h. cc;
  indexed = λ id lease h. cc;
  named = λ id lease h. cc;
  unnamed = refl;
  claims = tt;
  distinct = tt;
}

Step-Inv : (fl : Float64) {l l' : Ledger} → Step fl l l' → Inv l → Inv l'
unfolding release
Step-Inv fl {l} (acquires now fresh stamp req u) inv = acquire-Inv fl now fresh stamp req l inv u
Step-Inv fl {l} (acquires_runtime now fresh stamp req u) inv =
    acquire_runtime-Inv fl now fresh stamp req l inv u
Step-Inv fl {l} (commits id) inv = commit-Inv id l inv
Step-Inv fl {l} (commits_owner owner) inv = commit_owner-Inv owner l inv
Step-Inv fl {l} (commits_instance instance_id) inv = commit_instance-Inv instance_id l inv
Step-Inv fl {l} (releases id) inv = release_locked-Inv id l inv
Step-Inv fl {l} (releases_owner owner) inv = release_owner-Inv owner l inv
Step-Inv fl {l} (releases_instance instance_id) inv = release_instance-Inv instance_id l inv
Step-Inv fl {l} (sweeps now) inv = sweep_expired-Inv now l inv

-- In every ledger that calls can reach, the owner index and the leases name one another, each lease
-- stands under its own id and each id once, and every claim belongs to a lease that is there.
pub Reach-Inv : (fl : Float64) {l : Ledger} → Reach fl l → Inv l
Reach-Inv fl (start ttl) = start-Inv ttl
Reach-Inv fl (next r s) = Step-Inv fl s (Reach-Inv fl r)

-- In every ledger that calls can reach, an owner has at most one lease: leases of one owner are one.
pub Reach-one_lease :
    (fl : Float64) {l : Ledger} (i j : Text) (a b : ResourceLease)
    → Reach fl l
    → lookup i l.leases ≡ some a
    → lookup j l.leases ≡ some b
    → a.owner ≡ b.owner
    → (i ≡ j) × (a ≡ b)
Reach-one_lease fl {l} i j a b r ha hb same =
    let inv = Reach-Inv fl r in
    let ids : i ≡ j = cc (inv.indexed i a ha, inv.indexed j b hb) in
    (ids, cc (ap (λ k. lookup k l.leases) ids))
