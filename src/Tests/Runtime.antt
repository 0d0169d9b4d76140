-- ===== src/Tests/Runtime.antt =====
-- A launch that does not fit on the GPUs as it was asked for.
use llama_rack.Scheduler.Demand.{
  combined_host_bytes, combined_moe_weight_distribution, cpu_moe_blocks, demand_context,
  estimate_demand, estimate_kv_bytes, expert_bytes, expert_weight_share, gpu_layer_count,
  gpu_layers_text, gpu_offload_fraction, runtime_overhead, vram_bytes, weights_on_gpu,
}
use llama_rack.Scheduler.Options.{
  cache_element_bytes, kv_on_gpu, option_enabled, option_present, option_value,
}
use llama_rack.Scheduler.Placement.{auto_placement, first_adequate, plan_placement, spread_over}
use llama_rack.Scheduler.Placement.Gpus.{gpu_before, insert_gpu, sorted_gpus_by_usable, usable_vram}
use llama_rack.Base.Maps.{lookup, put}
use llama_rack.Base.{◌≡◌, refl, ◌*◌, true, false, List, [], ◌∷◌, All, Bool, none, leb}
use llama_rack.Base.Text.{
  format_int, format_natural, one_of, parse_int, push_digits, text_eq, to_lower, trim_space,
}
use llama_rack.Base.Int64.{Int64, div64}
use llama_rack.Hardware.{Snapshot}
use llama_rack.Scheduler.Errors.{ok}
use llama_rack.Scheduler.Eviction.{Candidate}
use llama_rack.Scheduler.Eviction.Sound.{IsEvictable}
use llama_rack.Scheduler.Runtime.{
  RuntimePlanRequest, RuntimePlan, demand_for, evaluate_runtime_candidate, moe_options,
  plan_automatic_moe, plan_demand_placement, probe_fits, runtime_host_ram_fits,
  runtime_option_locks_for,
}
use llama_rack.Scheduler.Runtime.Plan.{plan_runtime, moe_attempt, plan_runtime_now}
use llama_rack.Scheduler.Runtime.Chosen.{IsChosen, plan_runtime-IsChosen}
use llama_rack.Scheduler.Runtime.Admission.{plan_runtime_evictions_with_snapshots, plan_or_zero}
use llama_rack.Scheduler.Runtime.Search.{first_fit}
use llama_rack.Scheduler.Runtime.Evictions.{plan_without, plan_runtime_evictions-frees_enough}
use llama_rack.Tests.Eviction.{candidates}
use llama_rack.Tests.{fractions, two_gpus, large_gpu, small_gpu, automatic, demand_input, gib}

abbrev request : RuntimePlanRequest
request = record {
  snapshot = two_gpus;
  idle_snapshot = none;
  demand = record (demand_input []) { weights_bytes = 20 * gib };
  placement = automatic;
  allow_system_spillover = false;
  capabilities = record {
    n_cpu_moe = true;
    cpu_moe = true;
    no_kv_offload = true;
    gpu_layers = true;
    gpu_layers_option = [];
  };
}

abbrev planned : RuntimePlan
planned = plan_or_zero (plan_runtime fractions request)

plan_runtime-IsChosen_example : IsChosen fractions request planned
unfolding text_eq trim_space to_lower one_of parse_int lookup div64 usable_vram gpu_before
    insert_gpu sorted_gpus_by_usable first_adequate spread_over auto_placement plan_placement
    option_value option_enabled cache_element_bytes kv_on_gpu vram_bytes estimate_kv_bytes
    cpu_moe_blocks gpu_layers_text gpu_offload_fraction weights_on_gpu demand_context
    runtime_overhead estimate_demand runtime_host_ram_fits demand_for plan_demand_placement
    evaluate_runtime_candidate plan_runtime_now plan_runtime
plan_runtime-IsChosen_example =
    plan_runtime-IsChosen fractions request large_gpu (small_gpu ∷ []) planned refl refl

-- Three blocks on the host are the fewest that fit.
abbrev enough : Int64 → Bool
enough k = leb 3 k

-- Two layers are the most that fit.
abbrev few : Int64 → Bool
few k = leb k 2

abbrev launch : RuntimePlanRequest
launch = record request { demand = record (demand_input []) { weights_bytes = 27 * gib } }

-- The host once these instances have stopped: each gives 4 GiB back on the first GPU.
abbrev host_after : List Candidate → Snapshot
host_after [] = two_gpus
host_after (c ∷ cs) = record two_gpus {
  gpus =
      record large_gpu { free_bytes = 23 * gib } ∷ record small_gpu { free_bytes = 11 * gib } ∷ [];
}

plan_runtime_evictions_example :
    let launch_plan =
      plan_runtime_evictions_with_snapshots fractions host_after candidates launch in
    All IsEvictable launch_plan.evict
    × (p : RuntimePlan) × (plan_without fractions host_after launch launch_plan.evict ≡ ok p)
    × (p.fits ≡ true)
    × (launch_plan.devices ≡ p.placement.devices)
unfolding text_eq trim_space to_lower one_of parse_int push_digits format_natural format_int lookup
    put div64 usable_vram gpu_before insert_gpu sorted_gpus_by_usable first_adequate spread_over
    auto_placement plan_placement option_value option_present option_enabled cache_element_bytes
    kv_on_gpu vram_bytes estimate_kv_bytes cpu_moe_blocks gpu_layers_text expert_weight_share
    expert_bytes combined_host_bytes combined_moe_weight_distribution gpu_layer_count
    gpu_offload_fraction weights_on_gpu demand_context runtime_overhead estimate_demand
    runtime_option_locks_for runtime_host_ram_fits demand_for plan_demand_placement
    evaluate_runtime_candidate probe_fits moe_options plan_automatic_moe moe_attempt
    plan_runtime_now plan_runtime first_fit plan_runtime_evictions_with_snapshots
plan_runtime_evictions_example =
    plan_runtime_evictions-frees_enough fractions host_after launch candidates refl
