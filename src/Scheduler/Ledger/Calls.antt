-- ===== src/Scheduler/Ledger/Calls.antt =====
-- backend/internal/scheduler/reservation.go: histories of calls, and what holds after any of them.
use llama_rack.Base.{
  ℕ, false, ◌≡◌, refl, ap, ◌∙◌, none, some, List, [], arith, Bool-cases, Option-cases, inl, inr,
  is_nil, ◌&&◌,
}
use llama_rack.Base.Text.{Text, trim_space}
use llama_rack.Base.Maps.{lookup, lookup_or}
use llama_rack.Base.Float.{Float64}
use llama_rack.Scheduler.Errors.{Result-cases}
use llama_rack.Scheduler.Placement.{Placement, plan_placement}
use llama_rack.Scheduler.Ledger.{
  AcquireRequest, ResourceOwner, ResourceLease, Ledger, resource_owner_key, release_owner_locked,
  sweep_expired, normalize_owner, is_pending,
}
use llama_rack.Scheduler.Ledger.Operations.{
  acquire, acquire_for, acquire_planned, allowed_credits, host_allows, instance_of, commit,
  commit_owner, commit_normalized, commit_instance, commit_lease, release_owner, release_instance,
  new_lease, record_lease, schedulable, of_instance,
}
use llama_rack.Scheduler.Ledger.Invariant.{
  Inv, release_owner_locked-Inv, release_owner_locked-owner, release_owner_locked-fewer,
}
use llama_rack.Scheduler.Ledger.Admit.{IsNew, record_lease-Inv, rewritten-Inv}
use llama_rack.Scheduler.Ledger.Sweep.{sweep_expired-Inv, lookup-sweep_expired}
use llama_rack.Hardware.{Snapshot}
use llama_rack.Scheduler.Runtime.{RuntimePlan}
use llama_rack.Scheduler.Runtime.Plan.{plan_runtime}
use llama_rack.Scheduler.Runtime.Admission.{
  RuntimeAcquireRequest, acquire_runtime, acquire_runtime_for, acquire_runtime_planned,
}

-- An id that the random source may give: not empty and not in use.
abbrev pub IsFresh : Text → Ledger → Type 0
IsFresh id l = (is_nil id ≡ false) × (lookup id l.leases ≡ none)

sweep_expired-IsFresh :
    (now : ℕ) (l : Ledger) (id : Text) → Inv l → IsFresh id l → IsFresh id (sweep_expired now l)
sweep_expired-IsFresh now l id inv h = (h.0, ground (arith, lookup-sweep_expired now l id inv, h.1))

commit_lease-Inv :
    (id : Text) (lease : ResourceLease) (l : Ledger)
    → Inv l
    → lookup id l.leases ≡ some lease
    → Inv (commit_lease id lease l).0
unfolding commit_lease
commit_lease-Inv id lease l inv found = elim (Bool-cases (is_pending lease.state)) [
  | inl e ↦ rw e (rewritten-Inv l inv id lease _ found refl refl)
  | inr e ↦ rw e inv
]

pub commit-Inv : (id : Text) (l : Ledger) → Inv l → Inv (commit id l).0
unfolding commit
commit-Inv id l inv = elim (Option-cases (lookup id l.leases)) [
  | inl e ↦ rw (e, commit) inv
  | inr (lease, e) ↦ rw (e, commit) (commit_lease-Inv id lease l inv e)
]

commit_normalized-Inv :
    (owner : ResourceOwner) (l : Ledger) → Inv l → Inv (commit_normalized owner l).0
unfolding commit_normalized
commit_normalized-Inv owner l inv =
    let id = lookup_or [] (resource_owner_key owner) l.by_owner in
    elim (Bool-cases (is_nil id)) [
      | inl e ↦ rw e inv
      | inr e ↦ elim (Option-cases (lookup id l.leases)) [
        | inl gone ↦ rw (e, gone) inv
        | inr (lease, found) ↦ rw (e, found) (commit_lease-Inv id lease l inv found)
      ]
    ]

pub commit_owner-Inv : (owner : ResourceOwner) (l : Ledger) → Inv l → Inv (commit_owner owner l).0
unfolding commit_owner
commit_owner-Inv owner l inv = elim (Result-cases (normalize_owner owner [])) [
  | inl (normal, e) ↦ rw (e, commit_owner) (commit_normalized-Inv normal l inv)
  | inr (_, e) ↦ rw (e, commit_owner) inv
]

pub commit_instance-Inv :
    (instance_id : Text) (l : Ledger) → Inv l → Inv (commit_instance instance_id l).0
unfolding commit_instance
commit_instance-Inv instance_id l inv = elim (Bool-cases (is_nil (trim_space instance_id))) [
  | inl e ↦ rw e inv
  | inr e ↦ rw e (commit_owner-Inv (of_instance instance_id) l inv)
]

pub release_owner-Inv : (owner : ResourceOwner) (l : Ledger) → Inv l → Inv (release_owner owner l)
unfolding release_owner
release_owner-Inv owner l inv = elim (Result-cases (normalize_owner owner [])) [
  | inl (normal, e) ↦ rw (e, release_owner) (release_owner_locked-Inv normal l inv)
  | inr (_, e) ↦ rw (e, release_owner) inv
]

pub release_instance-Inv :
    (instance_id : Text) (l : Ledger) → Inv l → Inv (release_instance instance_id l)
unfolding release_instance
release_instance-Inv instance_id l inv = elim (Bool-cases (is_nil (trim_space instance_id))) [
  | inl e ↦ rw e inv
  | inr e ↦ rw e (release_owner-Inv (of_instance instance_id) l inv)
]

-- A new lease for an owner whose old lease has just been released.
module _ (fresh : Text) (owner : ResourceOwner) (swept : Ledger) (inv : Inv swept)
    (unused : IsFresh fresh swept) where
  released_first-IsNew :
      (lease : ResourceLease)
      → lease.id ≡ fresh
      → lease.owner ≡ owner
      → IsNew lease (release_owner_locked owner swept)
  released_first-IsNew lease e o = record {
    fresh =
        ap (λ i. lookup i (release_owner_locked owner swept).leases) e
        ∙ release_owner_locked-fewer owner swept fresh inv unused.1;
    id_given = ap is_nil e ∙ unused.0;
    owner_free =
        ap (λ w. lookup (resource_owner_key w) (release_owner_locked owner swept).by_owner) o
        ∙ release_owner_locked-owner owner swept inv;
  }

  released_first-Inv :
      (lease : ResourceLease) (victims : List Text)
      → lease.id ≡ fresh
      → lease.owner ≡ owner
      → Inv (record_lease lease victims (release_owner_locked owner swept))
  released_first-Inv lease victims e o =
      record_lease-Inv (release_owner_locked owner swept) (release_owner_locked-Inv owner swept inv)
        lease victims (released_first-IsNew lease e o)

  acquire_planned-Inv :
      (stamp : ℕ) (req : AcquireRequest) (victims : List Text) (adjusted : Snapshot)
      (planned : Placement)
      → Inv
          (acquire_planned fresh stamp req owner victims adjusted planned
            (release_owner_locked owner swept)).0
  unfolding acquire_planned new_lease
  acquire_planned-Inv stamp req victims adjusted planned =
      elim (Bool-cases (planned.fits && host_allows adjusted req.host_ram)) [
        | inl e ↦ rw e (released_first-Inv _ victims refl refl)
        | inr e ↦ rw e (release_owner_locked-Inv owner swept inv)
      ]

  acquire_runtime_planned-Inv :
      (stamp : ℕ) (req : RuntimeAcquireRequest) (victims : List Text) (adjusted : Snapshot)
      (plan : RuntimePlan)
      → Inv
          (acquire_runtime_planned fresh stamp req owner victims adjusted plan
            (release_owner_locked owner swept)).0
  unfolding acquire_runtime_planned new_lease
  acquire_runtime_planned-Inv stamp req victims adjusted plan = elim (Bool-cases plan.fits) [
    | inl e ↦ rw e (released_first-Inv _ victims refl refl)
    | inr e ↦ rw e (release_owner_locked-Inv owner swept inv)
  ]

  acquire_for-Inv :
      (fl : Float64) (stamp : ℕ) (req : AcquireRequest)
      → Inv (acquire_for fl fresh stamp req owner (release_owner_locked owner swept)).0
  unfolding acquire_for
  acquire_for-Inv fl stamp req =
      let l = release_owner_locked owner swept in
      let credits = allowed_credits owner req.credits in
      let adjusted =
        schedulable l (resource_owner_key owner) (instance_of owner) credits req.snapshot in
      elim (Result-cases (plan_placement fl adjusted req.placement)) [
        | inl (planned, e) ↦ rw (e, acquire_for) (acquire_planned-Inv stamp req _ adjusted planned)
        | inr (_, e) ↦ rw (e, acquire_for) (release_owner_locked-Inv owner swept inv)
      ]

  acquire_runtime_for-Inv :
      (fl : Float64) (stamp : ℕ) (req : RuntimeAcquireRequest)
      → Inv (acquire_runtime_for fl fresh stamp req owner (release_owner_locked owner swept)).0
  unfolding acquire_runtime_for
  acquire_runtime_for-Inv fl stamp req =
      let l = release_owner_locked owner swept in
      let adjusted = schedulable l (resource_owner_key owner) owner.id req.credits req.snapshot in
      elim (Result-cases (plan_runtime fl (record (req.plan) { snapshot = adjusted }))) [
        | inl (plan, e) ↦
            rw (e, acquire_runtime_for) (acquire_runtime_planned-Inv stamp req _ adjusted plan)
        | inr (_, e) ↦ rw (e, acquire_runtime_for) (release_owner_locked-Inv owner swept inv)
      ]

pub acquire-Inv :
    (fl : Float64) (now : ℕ) (fresh : Text) (stamp : ℕ) (req : AcquireRequest) (l : Ledger)
    → Inv l
    → IsFresh fresh l
    → Inv (acquire fl now fresh stamp req l).0
unfolding acquire
acquire-Inv fl now fresh stamp req l inv unused =
    let swept = sweep_expired-Inv now l inv in
    elim (Bool-cases (
      is_nil (trim_space req.owner.kind)
      && is_nil (trim_space req.owner.id)
      && is_nil (trim_space req.instance_id))) [
        | inl e ↦ rw e swept
        | inr e ↦ elim (Result-cases (normalize_owner req.owner req.instance_id)) [
          | inl (owner, o) ↦
              rw (e, o)
                (acquire_for-Inv fresh owner (sweep_expired now l) swept
                  (sweep_expired-IsFresh now l fresh inv unused) fl stamp req)
          | inr (_, o) ↦ rw (e, o) swept
        ]
      ]

pub acquire_runtime-Inv :
    (fl : Float64) (now : ℕ) (fresh : Text) (stamp : ℕ) (req : RuntimeAcquireRequest) (l : Ledger)
    → Inv l
    → IsFresh fresh l
    → Inv (acquire_runtime fl now fresh stamp req l).0
unfolding acquire_runtime
acquire_runtime-Inv fl now fresh stamp req l inv unused =
    let swept = sweep_expired-Inv now l inv in
    elim (Bool-cases (is_nil (trim_space req.instance_id))) [
      | inl e ↦ rw e swept
      | inr e ↦ rw e (
          acquire_runtime_for-Inv fresh (of_instance (trim_space req.instance_id))
            (sweep_expired now l) swept (sweep_expired-IsFresh now l fresh inv unused) fl stamp req)
    ]
