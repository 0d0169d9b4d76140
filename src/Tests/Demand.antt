-- ===== src/Tests/Demand.antt =====
-- The memory that a model with experts needs, with three of its four blocks' experts on the host.
use llama_rack.Base.Maps.{lookup}
use llama_rack.Base.{◌≡◌, ◌+◌, arith, [], ◌∷◌}
use llama_rack.Base.Int64.{add64, div64}
use llama_rack.Base.Text.{codes, one_of, text_eq, to_lower, trim_space}
use llama_rack.Scheduler.Options.{Options, cache_element_bytes, option_value}
use llama_rack.Scheduler.Demand.{
  estimate_demand, vram_bytes, demand_context, estimate_kv_bytes, runtime_overhead,
}
use llama_rack.Scheduler.Demand.Split.{estimate_demand_total, estimate_demand_exact}
use llama_rack.Tests.{fractions, demand_input}

abbrev options : Options
options = (codes "n-cpu-moe", codes "3") ∷ []

estimate_demand_total_example :
    let d = estimate_demand fractions (demand_input options) in
    add64 (add64 d.host_ram_bytes d.gpu_splittable_bytes) d.gpu_fixed_bytes
    ≡ add64 (add64 d.weights_bytes d.kv_cache_bytes) d.runtime_overhead_bytes
estimate_demand_total_example = estimate_demand_total fractions (demand_input options) (omega arith)

estimate_demand_exact_example :
    let d = estimate_demand fractions (demand_input options) in
    (d.host_ram_bytes + vram_bytes d
      ≡ d.weights_bytes + d.kv_cache_bytes + d.runtime_overhead_bytes)
    × (vram_bytes d ≡ d.gpu_splittable_bytes + d.gpu_fixed_bytes)
unfolding estimate_demand estimate_kv_bytes demand_context div64 cache_element_bytes one_of text_eq
    to_lower trim_space option_value lookup runtime_overhead
estimate_demand_exact_example =
    estimate_demand_exact fractions (demand_input options) (omega arith) (omega arith) (omega arith)
