-- ===== src/Scheduler/Eviction/Cover.antt =====
-- backend/internal/scheduler/eviction.go: victims for a placement request.
use llama_rack.Base.{Bool, true, false, ◌&&◌, ◌||◌, not, List, [], ◌∷◌, ◌++◌, if◌then◌else◌, is_nil}
use llama_rack.Base.Int64.{lt64, le64}
use llama_rack.Base.Text.{codes, text_eq, to_lower, trim_space}
use llama_rack.Base.Float.{Float64}
use llama_rack.Hardware.{Gpu, Snapshot}
use llama_rack.Scheduler.Errors.{ok, err}
use llama_rack.Scheduler.Placement.{Placement, PlacementRequest, plan_placement, request_reserve}
use llama_rack.Scheduler.Placement.Gpus.{sorted_gpus_by_usable}
use llama_rack.Scheduler.Eviction.{
  Candidate, Plan, empty_plan, rank_eviction_candidates, candidate_gpu_bytes, plan_evictions_bytes,
  snapshot_with_candidate_credits, plan_from_selection, host_ram_fits,
}

-- The loop's variables: the victims so far, and the placement and the snapshot with their credits.
pub record Cover : Type 0 where
  pub selected : List Candidate
  pub current : Placement
  pub snapshot : Snapshot

-- A candidate that would give back nothing is passed over.
unfoldable pub releases_nothing : Candidate → Bool
releases_nothing c = le64 (candidate_gpu_bytes c) 0 && le64 c.resources.host_ram_bytes 0

module _ (fl : Float64) where
  -- Whether the trial brings the request nearer to fitting.
  unfoldable pub makes_progress : PlacementRequest → Cover → Placement → Snapshot → Bool
  makes_progress request s after trial =
      let host_fitted = host_ram_fits s.snapshot request.host_ram_bytes in
      let gpu_progress =
        not s.current.fits
        && (after.fits || lt64 s.current.available_bytes after.available_bytes) in
      let host_progress =
        not host_fitted
        && (host_ram_fits trial request.host_ram_bytes
            || lt64 s.snapshot.ram_available_bytes trial.ram_available_bytes) in
      gpu_progress || host_progress

  unfoldable pub plan_of_cover : PlacementRequest → Cover → Plan
  plan_of_cover request s =
      plan_from_selection s.selected s.current
        (s.current.fits && host_ram_fits s.snapshot request.host_ram_bytes)

  -- The loop over the ranked candidates. It ends where the request fits.
  unfoldable pub cover_from : Snapshot → PlacementRequest → Cover → List Candidate → Plan
  cover_from base request s [] = plan_of_cover request s
  cover_from base request s (c ∷ cs) =
      let trial = s.selected ++ (c ∷ []) in
      let snapshot = snapshot_with_candidate_credits base trial in
      let skip = cover_from base request s cs in
      if releases_nothing c then skip else elim (plan_placement fl snapshot request) [
        | err e ↦ skip
        | ok after ↦
            let next : Cover = record { selected = trial; current = after; snapshot = snapshot } in
            let rest = cover_from base request next cs in
            if not (makes_progress request s after snapshot)
            then skip
            else if after.fits && host_ram_fits snapshot request.host_ram_bytes
            then plan_of_cover request next
            else rest
      ]

  unfoldable pub cover_placement : List Candidate → Snapshot → PlacementRequest → Plan
  cover_placement candidates snapshot request = elim (plan_placement fl snapshot request) [
    | err e ↦ empty_plan false
    | ok current ↦
        if current.fits && host_ram_fits snapshot request.host_ram_bytes
        then plan_from_selection [] current true
        else cover_from snapshot request
            (record { selected = []; current = current; snapshot = snapshot })
            (rank_eviction_candidates candidates)
  ]

  abbrev single_request : PlacementRequest → Gpu → PlacementRequest
  single_request request gpu = record {
    required_bytes = request.required_bytes;
    host_ram_bytes = request.host_ram_bytes;
    mode = codes "manual";
    devices = gpu.id ∷ [];
    tensor_split = [];
    reserve_bytes = request.reserve_bytes;
    splittable_bytes = 0;
    fixed_bytes = 0;
  }

  -- The plan on the first GPU that can be cleared for the request, or else `otherwise`.
  unfoldable pub try_single : List Candidate → Snapshot → PlacementRequest → Plan → List Gpu → Plan
  try_single candidates snapshot request otherwise [] = otherwise
  try_single candidates snapshot request otherwise (g ∷ gpus) =
      let plan = cover_placement candidates snapshot (single_request request g) in
      if plan.fits then plan else try_single candidates snapshot request otherwise gpus

  unfoldable pub plan_evictions : List Candidate → Snapshot → PlacementRequest → Plan
  plan_evictions candidates snapshot request =
      let given = to_lower (trim_space request.mode) in
      let mode = if is_nil given then codes "auto" else given in
      let covered = cover_placement candidates snapshot request in
      if le64 request.required_bytes 0 && le64 request.host_ram_bytes 0
      then empty_plan true
      else if is_nil snapshot.gpus && lt64 0 request.required_bytes
      then plan_evictions_bytes candidates request.required_bytes
      else elim (plan_placement fl snapshot request) [
        | err e ↦ empty_plan false
        | ok current ↦
            let enough : Plan = record (empty_plan true) { devices = current.devices } in
            if current.fits && host_ram_fits snapshot request.host_ram_bytes
            then enough
            else if is_nil snapshot.gpus || current.fits
            then covered
            else if text_eq mode (codes "manual")
            then covered
            else try_single candidates snapshot request covered
                (sorted_gpus_by_usable (request_reserve request) snapshot.gpus)
      ]
