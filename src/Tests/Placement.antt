-- ===== src/Tests/Placement.antt =====
-- Requests on a host with two GPUs.
use llama_rack.Hardware.{Gpu}
use llama_rack.Base.{true, ◌≡◌, refl, ◌+◌, ◌-◌, ◌*◌, ◌/◌, arith, List, [], ◌∷◌, leb}
use llama_rack.Base.Int64.{Int64}
use llama_rack.Base.Text.{
  codes, split_comma, text_eq, trim_space, to_lower, Text, one_of, parse_int,
}
use llama_rack.Scheduler.Errors.{ok}
use llama_rack.Scheduler.Demand.{GpuResourceDemand, sum_bytes}
use llama_rack.Scheduler.Placement.{
  Placement, PlacementRequest, plan_placement, manual_placement_demand, device_share, share_out,
  strict_tensor_split_weights, strict_weights, sum_floats, valid_weight,
}
use llama_rack.Scheduler.Placement.Gpus.{usable_vram}
use llama_rack.Scheduler.Placement.Auto.{total_usable, reserve_of, plan_placement-fits_iff}
use llama_rack.Scheduler.Placement.Single.{IsOneOf, largest_usable, plan_placement-single_first}
use llama_rack.Scheduler.Placement.Split.{device_ids, manual_placement_demand_total}
use llama_rack.Scheduler.Capacity.{Occupancy, adjust_gpu, fill_devices}
use llama_rack.Scheduler.Capacity.Bounds.{
  reserved_ids, total_reserved, fill_devices_total, adjust_gpu_exact,
}
use llama_rack.Scheduler.Attribution.{clean_device_ids, split_estimate_across_devices}
use llama_rack.Scheduler.Attribution.Shares.{resource_ids, summed_bytes, split_estimate_total}
use llama_rack.Tests.{fractions, two_gpus, large_gpu, small_gpu, automatic, gib}

plan_placement-fits_iff_example :
    (placement : Placement) × (plan_placement fractions two_gpus automatic ≡ ok placement)
    × (placement.fits
        ≡ leb (25 * gib) (total_usable (reserve_of automatic) (large_gpu ∷ small_gpu ∷ [])))
unfolding trim_space to_lower usable_vram
plan_placement-fits_iff_example =
    plan_placement-fits_iff fractions two_gpus automatic large_gpu (small_gpu ∷ []) refl refl
      (omega arith) (omega arith)

abbrev weighted : PlacementRequest
weighted = record automatic { mode = codes "manual"; tensor_split = codes "3, 1" }

abbrev shares : List GpuResourceDemand
shares =
    record { device_id = codes "gpu0"; bytes = 19 * gib }
    ∷ record { device_id = codes "gpu1"; bytes = 6 * gib }
    ∷ []

manual_placement_demand_total_example :
    (device_ids shares ≡ codes "gpu0" ∷ codes "gpu1" ∷ []) × (sum_bytes 0 shares ≡ 25 * gib)
unfolding manual_placement_demand strict_tensor_split_weights trim_space split_comma strict_weights
    valid_weight parse_int sum_floats share_out device_share
manual_placement_demand_total_example =
    manual_placement_demand_total fractions weighted (codes "gpu0") (codes "gpu1" ∷ [])
      {out = shares} (omega arith) (omega arith) refl

abbrev half_gib : Text → Int64
half_gib id = gib / 2

fill_devices_total_example :
    let filled = fill_devices half_gib (3 * gib) (codes "gpu0" ∷ codes "gpu1" ∷ []) in
    (reserved_ids filled ≡ codes "gpu0" ∷ codes "gpu1" ∷ []) × (total_reserved filled ≡ 3 * gib)
fill_devices_total_example =
    fill_devices_total half_gib (3 * gib) (codes "gpu0") (codes "gpu1" ∷ []) (omega arith)
      (λ id. omega arith)

abbrev leased : Occupancy
leased = record { pending = 5 * gib; committed = gib }

adjust_gpu_exact_example :
    let adjusted = adjust_gpu large_gpu leased 0 in
    (adjusted.free_bytes ≡ 24 * gib - (5 * gib + gib + (2 * gib - (gib + 0))))
    × (adjusted.free_bytes + adjusted.used_bytes ≡ 24 * gib)
adjust_gpu_exact_example =
    adjust_gpu_exact large_gpu leased 0 (omega arith) (omega arith) (omega arith) (omega arith)
      (omega arith) (omega arith)

abbrev named : List Text
named = codes "gpu0" ∷ codes " gpu1 " ∷ [] ∷ codes "gpu0" ∷ []

split_estimate_total_example :
    let parts = split_estimate_across_devices fractions (7 * gib) named (codes "2,1") in
    (resource_ids parts ≡ codes "gpu0" ∷ codes "gpu1" ∷ []) × (summed_bytes 0 parts ≡ 7 * gib)
unfolding clean_device_ids trim_space one_of text_eq
split_estimate_total_example =
    split_estimate_total fractions (7 * gib) named (codes "2,1") (codes "gpu0") (codes "gpu1" ∷ [])
      (omega arith) (λ e. absurd (omega (arith, e))) refl

abbrev smaller : PlacementRequest
smaller = record automatic { required_bytes = 10 * gib }

plan_placement-single_first_example :
    (placement : Placement) × (plan_placement fractions two_gpus smaller ≡ ok placement)
    × (placement.fits ≡ true)
    × (top : Gpu) × IsOneOf top (large_gpu ∷ small_gpu ∷ [])
    × (placement.devices ≡ top.id ∷ [])
    × (usable_vram top (reserve_of smaller)
        ≡ largest_usable (reserve_of smaller) (large_gpu ∷ small_gpu ∷ []))
    × (placement.available_bytes ≡ usable_vram top (reserve_of smaller))
unfolding trim_space to_lower usable_vram
plan_placement-single_first_example =
    plan_placement-single_first fractions two_gpus smaller large_gpu (small_gpu ∷ []) refl refl
      (omega arith) (omega arith)
