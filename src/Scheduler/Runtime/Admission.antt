-- ===== src/Scheduler/Runtime/Admission.antt =====
-- backend/internal/scheduler/eviction.go and reservation.go: victims for a runtime request, and its
-- admission by the ledger.
use llama_rack.Base.{
  ℕ, Bool, true, false, ◌&&◌, ◌||◌, not, none, some, List, [], ◌∷◌, ◌++◌, if◌then◌else◌, is_nil,
}
use llama_rack.Base.Int64.{Int64, add64, sub64, lt64, le64}
use llama_rack.Base.Text.{Text, trim_space}
use llama_rack.Base.Maps.{Map, lookup}
use llama_rack.Base.Float.{Float64}
use llama_rack.Hardware.{Gpu, Snapshot}
use llama_rack.Scheduler.Errors.{Result, ok, err, instance_id_required}
use llama_rack.Scheduler.Demand.{GpuResourceDemand, vram_bytes}
use llama_rack.Scheduler.Placement.{Placement, PlacementRequest, request_reserve}
use llama_rack.Scheduler.Placement.Gpus.{usable_vram, by_id}
use llama_rack.Scheduler.Capacity.{reservations_for}
use llama_rack.Scheduler.Ledger.{
  ResourceOwner, ResourceLease, Credit, Ledger, resource_owner_key, release_owner_locked,
  sweep_expired, usable_credits,
}
use llama_rack.Scheduler.Ledger.Operations.{
  schedulable, record_lease, refused_lease, new_lease, of_instance,
}
use llama_rack.Scheduler.Eviction.{
  Candidate, Plan, empty_plan, rank_eviction_candidates, plan_from_selection,
  snapshot_with_candidate_credits,
}
use llama_rack.Scheduler.Eviction.Cover.{releases_nothing}
use llama_rack.Scheduler.Runtime.{RuntimePlanRequest, RuntimePlan, runtime_host_ram_fits}
use llama_rack.Scheduler.Runtime.Plan.{plan_runtime}

-- The usable bytes of a device; 0 for one that is not in the snapshot.
unfoldable pub device_available : Map Gpu → Int64 → Text → Int64
device_available gpus reserve id = elim (lookup id gpus) [
  | none ↦ 0
  | some g ↦ usable_vram g reserve
]

unfoldable pub demand_deficit : Map Gpu → Int64 → Int64 → List GpuResourceDemand → Int64
unfolding device_available
demand_deficit gpus reserve deficit [] = deficit
demand_deficit gpus reserve deficit (d ∷ demands) =
    let available = device_available gpus reserve d.device_id in
    demand_deficit gpus reserve
      (if lt64 available d.bytes then add64 deficit (sub64 d.bytes available) else deficit) demands

unfoldable pub runtime_gpu_deficit : Placement → Snapshot → PlacementRequest → Int64
unfolding demand_deficit
runtime_gpu_deficit placement snapshot request =
    let summed =
      demand_deficit (by_id snapshot.gpus) (request_reserve request) 0 placement.device_demand in
    if le64 placement.required_bytes 0
    then 0
    else if not (is_nil placement.device_demand)
    then summed
    else if lt64 placement.available_bytes placement.required_bytes
    then sub64 placement.required_bytes placement.available_bytes
    else 0

unfoldable pub runtime_plan_progress :
    RuntimePlan → RuntimePlan → Snapshot → Snapshot → PlacementRequest → Bool
runtime_plan_progress before after before_snapshot after_snapshot request =
    let before_host = runtime_host_ram_fits before_snapshot before.demand.host_ram_bytes in
    let after_host = runtime_host_ram_fits after_snapshot after.demand.host_ram_bytes in
    let before_deficit = runtime_gpu_deficit before.placement before_snapshot request in
    let after_deficit = runtime_gpu_deficit after.placement after_snapshot request in
    if after.fits
    then true
    else if not before_host
        && (after_host
            || lt64 before_snapshot.ram_available_bytes after_snapshot.ram_available_bytes)
    then true
    else if le64 before_deficit 0
    then false
    else lt64 after_deficit before_deficit

-- The zero value of a plan, which `PlanRuntime` returns with an error.
abbrev pub no_runtime_plan : RuntimePlan
no_runtime_plan = record {
  fits = false;
  mode = [];
  demand = record {
    host_ram_bytes = 0;
    weights_bytes = 0;
    kv_cache_bytes = 0;
    runtime_overhead_bytes = 0;
    gpu_splittable_bytes = 0;
    gpu_fixed_bytes = 0;
    gpu = [];
    confidence = [];
  };
  placement = record {
    devices = [];
    tensor_split = [];
    required_bytes = 0;
    available_bytes = 0;
    device_demand = [];
    fits = false;
  };
  options = [];
  requires_spillover = false;
}

abbrev pub plan_or_zero : Result RuntimePlan → RuntimePlan
plan_or_zero (ok plan) = plan
plan_or_zero (err e) = no_runtime_plan

-- The loop's variables.
pub record Trial : Type 0 where
  pub selected : List Candidate
  pub current : RuntimePlan
  pub snapshot : Snapshot

module _ (fl : Float64) (snapshot_for : List Candidate → Snapshot) where
  unfoldable pub runtime_evictions_from : RuntimePlanRequest → Trial → List Candidate → Plan
  runtime_evictions_from request t [] =
      plan_from_selection t.selected t.current.placement t.current.fits
  runtime_evictions_from request t (c ∷ cs) =
      let trial = t.selected ++ (c ∷ []) in
      let snapshot = snapshot_for trial in
      let skip = runtime_evictions_from request t cs in
      if releases_nothing c
      then skip
      else elim (plan_runtime fl (record request { snapshot = snapshot })) [
        | err e ↦ skip
        | ok after ↦
            let rest =
              runtime_evictions_from request
                (record { selected = trial; current = after; snapshot = snapshot }) cs in
            if not (runtime_plan_progress t.current after t.snapshot snapshot request.placement)
            then skip
            else if after.fits
            then plan_from_selection trial after.placement true
            else rest
      ]

  unfoldable pub plan_runtime_evictions_with_snapshots : List Candidate → RuntimePlanRequest → Plan
  plan_runtime_evictions_with_snapshots candidates request =
      let snapshot = snapshot_for [] in
      let current = plan_or_zero (plan_runtime fl (record request { snapshot = snapshot })) in
      let enough : Plan = record (empty_plan true) { devices = current.placement.devices } in
      if current.fits
      then enough
      else runtime_evictions_from request
          (record { selected = []; current = current; snapshot = snapshot })
          (rank_eviction_candidates candidates)

unfoldable pub plan_runtime_evictions :
    Float64 → List Candidate → Snapshot → RuntimePlanRequest → Plan
plan_runtime_evictions fl candidates snapshot request =
    plan_runtime_evictions_with_snapshots fl (snapshot_with_candidate_credits snapshot) candidates
      request

pub record RuntimeAcquireRequest : Type 0 where
  pub instance_id : Text
  pub snapshot : Snapshot
  pub plan : RuntimePlanRequest
  pub credits : List Credit

-- `AcquireRuntime` once the launch is planned on the snapshot `adjusted`.
unfoldable pub acquire_runtime_planned :
    Text
    → ℕ
    → RuntimeAcquireRequest
    → ResourceOwner
    → List Text
    → Snapshot
    → RuntimePlan
    → Ledger
    → Ledger × Result (ResourceLease × RuntimePlan)
acquire_runtime_planned fresh stamp req owner victims adjusted plan l =
    let request = record (req.plan.placement) {
      required_bytes = vram_bytes plan.demand;
      host_ram_bytes = plan.demand.host_ram_bytes;
    } in
    let gpus = reservations_for plan.placement adjusted request in
    let lease = new_lease l fresh stamp owner plan.placement gpus plan.demand.host_ram_bytes in
    if plan.fits
    then (record_lease lease victims l, ok (lease, plan))
    else (l, ok (refused_lease owner owner.id plan.placement, plan))

-- The method's three results: the ledger, the lease and the plan.
module _ (fl : Float64) where
  -- The part of `AcquireRuntime` behind the release of the instance's old lease.
  unfoldable pub acquire_runtime_for :
      Text
      → ℕ
      → RuntimeAcquireRequest
      → ResourceOwner
      → Ledger
      → Ledger × Result (ResourceLease × RuntimePlan)
  acquire_runtime_for fresh stamp req owner l =
      let victims = (usable_credits l owner.id req.credits).victims in
      let adjusted = schedulable l (resource_owner_key owner) owner.id req.credits req.snapshot in
      elim (plan_runtime fl (record (req.plan) { snapshot = adjusted })) [
        | err e ↦ (l, err e)
        | ok plan ↦ acquire_runtime_planned fresh stamp req owner victims adjusted plan l
      ]

  unfoldable pub acquire_runtime :
      ℕ → Text → ℕ → RuntimeAcquireRequest → Ledger → Ledger × Result (ResourceLease × RuntimePlan)
  acquire_runtime now fresh stamp req l =
      let swept = sweep_expired now l in
      let instance_id = trim_space req.instance_id in
      if is_nil instance_id
      then (swept, err instance_id_required)
      else acquire_runtime_for fresh stamp req (of_instance instance_id)
          (release_owner_locked (of_instance instance_id) swept)
