-- ===== src/Scheduler/Ledger/Operations.antt =====
-- backend/internal/scheduler/reservation.go: the methods of the ledger. One that fails may still have
-- changed the ledger, so it returns the ledger and its result. Leases are values: the copies that
-- `cloneLease` makes are the leases themselves.
use llama_rack.Base.{
  ℕ, ◌+◌, Bool, ◌&&◌, ◌||◌, not, Option, none, some, List, [], ◌∷◌, map, if◌then◌else◌, is_nil,
  keep,
}
use llama_rack.Base.Int64.{Int64, lt64}
use llama_rack.Base.Text.{Text, text_eq, trim_space}
use llama_rack.Base.Maps.{Map, lookup, lookup_or, put}
use llama_rack.Base.Float.{Float64}
use llama_rack.Hardware.{Snapshot}
use llama_rack.Scheduler.Errors.{
  Result, ok, err, instance_id_required, lease_unknown, lease_not_pending,
}
use llama_rack.Scheduler.Placement.{Placement, plan_placement}
use llama_rack.Scheduler.Capacity.{GpuReservation, adjust_snapshot, reservations_for}
use llama_rack.Scheduler.Ledger.{
  unset, pending, committed, is_pending, owner_instance, ResourceOwner, ResourceLease, Credit,
  AcquireRequest, Ledger, resource_owner_key, normalize_owner, release_locked, release_owner_locked,
  sweep_expired, usable_credits, occupancy,
}

-- The snapshot as an acquiring start sees it.
unfoldable pub schedulable : Ledger → Text → Text → List Credit → Snapshot → Snapshot
schedulable l ignore_owner requester credits snapshot =
    let u = usable_credits l requester credits in
    let (by_device, host) = occupancy l ignore_owner u.victims in
    adjust_snapshot snapshot by_device host u.bytes_by_device u.host_bytes

-- l.claimed[victim] = id for each victim.
unfoldable pub claim_all : Text → List Text → Map Text → Map Text
claim_all id [] claimed = claimed
claim_all id (victim ∷ victims) claimed = claim_all id victims (put victim id claimed)

-- The new lease enters the ledger.
unfoldable pub record_lease : ResourceLease → List Text → Ledger → Ledger
unfolding claim_all
record_lease lease victims l = record l {
  leases = put lease.id lease l.leases;
  by_owner = put (resource_owner_key lease.owner) lease.id l.by_owner;
  claimed = claim_all lease.id victims l.claimed;
}

-- What a caller gets where the placement does not fit: no lease, but the owner and the placement.
unfoldable pub refused_lease : ResourceOwner → Text → Placement → ResourceLease
refused_lease owner instance_id placement = record {
  id = [];
  owner = owner;
  instance_id = instance_id;
  placement = placement;
  gpus = [];
  host_ram = 0;
  state = unset;
  expires_at = 0;
}

unfoldable pub instance_of : ResourceOwner → Text
instance_of owner = if text_eq owner.kind owner_instance then owner.id else []

-- Host memory is checked where the snapshot knows of any.
unfoldable pub host_allows : Snapshot → Int64 → Bool
host_allows adjusted host_ram = not (
    lt64 0 host_ram
    && (lt64 0 adjusted.ram_total_bytes || lt64 0 adjusted.ram_available_bytes)
    && lt64 adjusted.ram_available_bytes host_ram)

-- The lease of an admitted start, under the id `fresh`, made at the instant `stamp`.
unfoldable pub new_lease :
    Ledger → Text → ℕ → ResourceOwner → Placement → List GpuReservation → Int64 → ResourceLease
new_lease l fresh stamp owner placement gpus host_ram = record {
  id = fresh;
  owner = owner;
  instance_id = instance_of owner;
  placement = placement;
  gpus = gpus;
  host_ram = host_ram;
  state = pending;
  expires_at = stamp + l.ttl;
}

-- `Acquire` once the placement is planned on the snapshot `adjusted`: the lease if it fits.
unfoldable pub acquire_planned :
    Text
    → ℕ
    → AcquireRequest
    → ResourceOwner
    → List Text
    → Snapshot
    → Placement
    → Ledger
    → Ledger × Result ResourceLease
acquire_planned fresh stamp req owner victims adjusted planned l =
    let placement = record planned { fits = planned.fits && host_allows adjusted req.host_ram } in
    let gpus = reservations_for placement adjusted req.placement in
    let lease = new_lease l fresh stamp owner placement gpus req.host_ram in
    if placement.fits
    then (record_lease lease victims l, ok lease)
    else (l, ok (refused_lease owner [] placement))

-- Only an instance may use credits.
unfoldable pub allowed_credits : ResourceOwner → List Credit → List Credit
allowed_credits owner credits = if text_eq owner.kind owner_instance then credits else []

module _ (fl : Float64) where
  -- The part of `Acquire` behind the release of the owner's old lease.
  unfoldable pub acquire_for :
      Text → ℕ → AcquireRequest → ResourceOwner → Ledger → Ledger × Result ResourceLease
  acquire_for fresh stamp req owner l =
      let requester = instance_of owner in
      let credits = allowed_credits owner req.credits in
      let victims = (usable_credits l requester credits).victims in
      let adjusted = schedulable l (resource_owner_key owner) requester credits req.snapshot in
      elim (plan_placement fl adjusted req.placement) [
        | err e ↦ (l, err e)
        | ok planned ↦ acquire_planned fresh stamp req owner victims adjusted planned l
      ]

  -- `now` is the clock's reading for the sweep.
  unfoldable pub acquire : ℕ → Text → ℕ → AcquireRequest → Ledger → Ledger × Result ResourceLease
  acquire now fresh stamp req l =
      let swept = sweep_expired now l in
      if is_nil (trim_space req.owner.kind)
        && is_nil (trim_space req.owner.id)
        && is_nil (trim_space req.instance_id)
      then (swept, err instance_id_required)
      else elim (normalize_owner req.owner req.instance_id) [
        | err e ↦ (swept, err e)
        | ok owner ↦ acquire_for fresh stamp req owner (release_owner_locked owner swept)
      ]

unfoldable pub commit_lease : Text → ResourceLease → Ledger → Ledger × Result (Unit {0})
commit_lease id lease l =
    if is_pending lease.state
    then (
      record l { leases = put id (record lease { state = committed; expires_at = 0 }) l.leases },
      ok tt,
    )
    else (l, err lease_not_pending)

unfoldable pub commit : Text → Ledger → Ledger × Result (Unit {0})
unfolding commit_lease
commit id l = elim (lookup id l.leases) [
  | none ↦ (l, err lease_unknown)
  | some lease ↦ commit_lease id lease l
]

unfoldable pub commit_normalized : ResourceOwner → Ledger → Ledger × Result (Unit {0})
commit_normalized owner l =
    let id = lookup_or [] (resource_owner_key owner) l.by_owner in
    if is_nil id
    then (l, ok tt)
    else elim (lookup id l.leases) [ none ↦ (l, ok tt) | some lease ↦ commit_lease id lease l ]

unfoldable pub commit_owner : ResourceOwner → Ledger → Ledger × Result (Unit {0})
commit_owner owner l = elim (normalize_owner owner []) [
  | err e ↦ (l, err e)
  | ok normal ↦ commit_normalized normal l
]

abbrev pub of_instance : Text → ResourceOwner
of_instance instance_id = record { kind = owner_instance; id = instance_id }

unfoldable pub commit_instance : Text → Ledger → Ledger × Result (Unit {0})
commit_instance instance_id l =
    if is_nil (trim_space instance_id) then (l, ok tt) else commit_owner (of_instance instance_id) l

unfoldable pub release : Text → Ledger → Ledger
release id l = release_locked id l

unfoldable pub release_owner : ResourceOwner → Ledger → Ledger
release_owner owner l = elim (normalize_owner owner []) [
  | err e ↦ l
  | ok normal ↦ release_owner_locked normal l
]

unfoldable pub release_instance : Text → Ledger → Ledger
release_instance instance_id l =
    if is_nil (trim_space instance_id) then l else release_owner (of_instance instance_id) l

unfoldable pub get : ℕ → Text → Ledger → Ledger × Option ResourceLease
get now id l = let swept = sweep_expired now l in (swept, lookup id swept.leases)

unfoldable pub get_by_owner : ℕ → ResourceOwner → Ledger → Ledger × Option ResourceLease
get_by_owner now owner l = elim (normalize_owner owner []) [
  | err e ↦ (l, none)
  | ok normal ↦
      let swept = sweep_expired now l in
      let id = lookup_or [] (resource_owner_key normal) swept.by_owner in
      (swept, if is_nil id then none else lookup id swept.leases)
]

unfoldable pub get_by_instance : ℕ → Text → Ledger → Ledger × Option ResourceLease
get_by_instance now instance_id l =
    if is_nil (trim_space instance_id)
    then (l, none)
    else get_by_owner now (of_instance instance_id) l

unfoldable pub planning_snapshot_with_credits :
    ℕ → Snapshot → ResourceOwner → List Credit → Ledger → Ledger × Snapshot
planning_snapshot_with_credits now snapshot owner credits l =
    let swept = sweep_expired now l in
    elim (normalize_owner owner []) [
      | err e ↦ (swept, schedulable swept [] [] [] snapshot)
      | ok normal ↦ (
        swept,
        schedulable swept (resource_owner_key normal) (instance_of normal)
            (allowed_credits normal credits) snapshot,
      )
    ]

unfoldable pub planning_snapshot : ℕ → Snapshot → ResourceOwner → Ledger → Ledger × Snapshot
planning_snapshot now snapshot owner l = planning_snapshot_with_credits now snapshot owner [] l

-- The leases of `Pending` and `All` come in an order that the source leaves open.
unfoldable pub pending_leases : ℕ → Ledger → Ledger × List ResourceLease
pending_leases now l =
    let swept = sweep_expired now l in
    (swept, keep (λ lease. is_pending lease.state) (map (λ e. e.1) swept.leases))

unfoldable pub all_leases : ℕ → Ledger → Ledger × List ResourceLease
all_leases now l = let swept = sweep_expired now l in (swept, map (λ e. e.1) swept.leases)
