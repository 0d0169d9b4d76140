-- ===== src/Scheduler/Placement/Split.antt =====
-- backend/internal/scheduler/placement.go: manual placement shares every byte out.
use llama_rack.Base.{◌≡◌, refl, ap, sym, List, [], ◌∷◌, map, arith, length, ◌∙◌}
use llama_rack.Base.Int64.{Int64, IsInt64, add64, sub64}
use llama_rack.Base.Text.{Text}
use llama_rack.Base.Float.{Float64}
use llama_rack.Scheduler.Errors.{Result, ok, err, ◌>>=◌}
use llama_rack.Scheduler.Demand.{GpuResourceDemand, sum_bytes}
use llama_rack.Scheduler.Placement.{
  PlacementRequest, device_share, share_out, manual_placement_demand, strict_tensor_split_weights,
  sum_floats, head_weight, tail_weights,
}

abbrev pub device_ids : List GpuResourceDemand → List Text
device_ids = map (λ d. d.device_id)

module _ (fl : Float64) where
  open fl use {F, constant, of_int, to_int, to_int_lt, mul, div, floor}

  share_out-ids :
      (splittable : Int64) (sum : F) (extra remaining : Int64) (ids : List Text) (weights : List F)
      → device_ids (share_out fl splittable sum extra remaining ids weights) ≡ ids
  unfolding share_out
  share_out-ids splittable sum extra remaining [] weights = refl
  share_out-ids splittable sum extra remaining (id ∷ ids) weights =
      ap (◌∷◌ id) (share_out-ids splittable sum 0 _ ids (tail_weights fl weights))

  device_share-IsInt64 :
      (splittable : Int64) (sum weight : F) → IsInt64 (device_share fl splittable sum weight)
  unfolding device_share
  device_share-IsInt64 splittable sum weight =
      ground (arith, to_int_lt (floor (div (mul (of_int splittable) weight) sum)))

  share_out-sum :
      (total splittable : Int64) (sum : F) (extra remaining : Int64) (id : Text) (ids : List Text)
      (weights : List F)
      → IsInt64 remaining
      → IsInt64 total
      → sum_bytes total (share_out fl splittable sum extra remaining (id ∷ ids) weights)
        ≡ add64 total (add64 remaining extra)
  unfolding share_out sum_bytes
  share_out-sum total splittable sum extra remaining id [] weights h k = refl
  share_out-sum total splittable sum extra remaining id (next ∷ ids) weights h k =
      let own = device_share fl splittable sum (head_weight fl weights) in
      share_out-sum (add64 total (add64 own extra)) splittable sum 0 (sub64 remaining own) next ids
        (tail_weights fl weights) (omega arith) (omega arith)
      ∙ omega (arith, device_share-IsInt64 splittable sum (head_weight fl weights))

  shared_total :
      (splittable fixed : Int64) (id : Text) (ids : List Text) (weights : Result (List F))
      {out : List GpuResourceDemand}
      → IsInt64 splittable
      → (weights >>= λ w.
          ok (
            share_out fl splittable (sum_floats fl (constant 0 1) w) fixed splittable (id ∷ ids) w))
        ≡ ok out
      → (device_ids out ≡ id ∷ ids) × (sum_bytes 0 out ≡ add64 splittable fixed)
  shared_total splittable fixed id ids (err e) h p = cc
  shared_total splittable fixed id ids (ok w) {out} h p =
      let sum = sum_floats fl (constant 0 1) w in
      let same : share_out fl splittable sum fixed splittable (id ∷ ids) w ≡ out = cc in
      (
        ap device_ids (sym same) ∙ share_out-ids splittable sum fixed splittable (id ∷ ids) w,
        ap (sum_bytes 0) (sym same)
            ∙ share_out-sum 0 splittable sum fixed splittable id ids w h (omega arith)
            ∙ omega arith,
      )

  -- A manual placement that is planned names the devices in order, and its parts add up to the
  -- required bytes, whatever the weights and however the shares are rounded.
  pub manual_placement_demand_total :
      (request : PlacementRequest) (id : Text) (ids : List Text) {out : List GpuResourceDemand}
      → IsInt64 request.required_bytes
      → IsInt64 request.splittable_bytes
      → manual_placement_demand fl request (id ∷ ids) ≡ ok out
      → (device_ids out ≡ id ∷ ids) × (sum_bytes 0 out ≡ request.required_bytes)
  unfolding manual_placement_demand
  manual_placement_demand_total request id ids {out} h k e =
      let weights = strict_tensor_split_weights fl request.tensor_split (length (id ∷ ids)) in
      ground (
        arith,
        shared_total request.required_bytes request.fixed_bytes id ids weights {out = out},
        shared_total request.splittable_bytes request.fixed_bytes id ids weights {out = out},
      )
