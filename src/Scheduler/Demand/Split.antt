-- ===== src/Scheduler/Demand/Split.antt =====
-- backend/internal/scheduler/demand.go: the split between host and GPU loses no byte.
use llama_rack.Base.{
  ℕ, ◌+◌, ◌≤◌, ◌≡◌, ◌<◌, ◌^◌, arith, Bool, true, false, List, [], ◌∷◌, if◌then◌else◌, Option-cases,
  inl, inr,
}
use llama_rack.Base.Int64.{Int64, IsInt64, IsNonneg, add64, sub64, lt64}
use llama_rack.Base.Float.{Float64}
use llama_rack.Scheduler.Options.{kv_on_gpu}
use llama_rack.Scheduler.Demand.{
  GpuResourceDemand, DemandInput, at_least_zero, at_most, expert_bytes, combined_host_bytes,
  combined_moe_weight_distribution, moe_weight_distribution, weights_on_gpu, cpu_moe_blocks,
  gpu_layer_count, estimate_demand, vram_bytes, sum_bytes, gpu_offload_fraction,
}

at_least_zero-IsNonneg : (x : Int64) → IsInt64 x → IsNonneg (at_least_zero x)
at_least_zero-IsNonneg x h = ground arith

at_most-le : (limit x : Int64) → IsNonneg limit → IsNonneg x → at_most limit x ≤ limit
at_most-le limit x h k = ground arith

bounded-le :
    (limit x : Int64) → IsNonneg limit → IsInt64 x → at_most limit (at_least_zero x) ≤ limit
bounded-le limit x h k = at_most-le limit (at_least_zero x) h (at_least_zero-IsNonneg x k)

-- Two shares of `weights`, which add up to it.
abbrev IsSplitOf : Int64 → Int64 × Int64 → Type 0
IsSplitOf weights s = (s.0 + s.1 ≡ weights) × (s.1 ≤ weights)

split-IsSplitOf :
    (weights host : Int64)
    → IsNonneg weights
    → host ≤ weights
    → IsSplitOf weights (sub64 weights host, host)
split-IsSplitOf weights host h k = (omega arith, k)

add64-IsInt64 : (a b : Int64) → IsInt64 (add64 a b)
add64-IsInt64 a b = omega arith

if_IsInt64 : (b : Bool) (x y : Int64) → IsInt64 x → IsInt64 y → IsInt64 (if b then x else y)
if_IsInt64 true x y hx hy = hx
if_IsInt64 false x y hx hy = hy

if_le : (bound : ℕ) (b : Bool) (x y : Int64) → x ≤ bound → y ≤ bound → (if b then x else y) ≤ bound
if_le bound true x y hx hy = hx
if_le bound false x y hx hy = hy

split_left-le :
    (weights : Int64) (s : Int64 × Int64)
    → IsSplitOf weights s
    → IsNonneg weights
    → sub64 weights s.1 ≤ weights
split_left-le weights s h k = omega arith

-- The parts of a demand: `g` of the weights `w` on GPU, a companion `c`, a cache `k`, overhead `o`.
parts_total :
    (w g c k o : Int64) (cpu_only kv_gpu : Bool)
    → g ≤ w
    → IsNonneg w
    → add64
        (add64
          (add64
            (add64 (add64 (sub64 w g) (if cpu_only then c else 0)) (if kv_gpu then 0 else k))
            (if cpu_only then o else 0))
          g)
        (add64
          (add64 (if cpu_only then 0 else c) (if kv_gpu then k else 0))
          (if cpu_only then 0 else o))
      ≡ add64 (add64 (add64 w c) k) o
parts_total w g c k o true true h n = omega arith
parts_total w g c k o true false h n = omega arith
parts_total w g c k o false true h n = omega arith
parts_total w g c k o false false h n = omega arith

listed : Int64 → List GpuResourceDemand
listed vram = if lt64 0 vram then record { device_id = []; bytes = vram } ∷ [] else []

sum_bytes-listed : (vram : Int64) → IsNonneg vram → sum_bytes 0 (listed vram) ≡ vram
unfolding sum_bytes listed
sum_bytes-listed vram h = ground arith

parts_exact :
    (w g c k o : Int64) (cpu_only kv_gpu : Bool)
    → g ≤ w
    → w + c + k + o < 2 ^ 63
    → let vram =
        add64
          (add64 (add64 g (if cpu_only then 0 else c)) (if kv_gpu then k else 0))
          (if cpu_only then 0 else o) in
      let host =
        add64
          (add64 (add64 (sub64 w g) (if cpu_only then c else 0)) (if kv_gpu then 0 else k))
          (if cpu_only then o else 0) in
      let fixed =
        add64
          (add64 (if cpu_only then 0 else c) (if kv_gpu then k else 0))
          (if cpu_only then 0 else o) in
      (host + sum_bytes 0 (listed vram) ≡ add64 w c + k + o)
      × (sum_bytes 0 (listed vram) ≡ g + fixed)
parts_exact w g c k o true true h n =
    (omega (arith, sum_bytes-listed), omega (arith, sum_bytes-listed))
parts_exact w g c k o true false h n =
    (omega (arith, sum_bytes-listed), omega (arith, sum_bytes-listed))
parts_exact w g c k o false true h n =
    (omega (arith, sum_bytes-listed), omega (arith, sum_bytes-listed))
parts_exact w g c k o false false h n =
    (omega (arith, sum_bytes-listed), omega (arith, sum_bytes-listed))

module _ (fl : Float64) where
  open fl use {F, to_int, to_int_lt, mul, of_int, round}

  expert_bytes-IsInt64 :
      (weights block_count blocks expert_count : Int64)
      → IsInt64 (expert_bytes fl weights block_count blocks expert_count)
  unfolding expert_bytes
  expert_bytes-IsInt64 weights block_count blocks expert_count = to_int_lt _

  combined_host_bytes-IsInt64 :
      (weights block_count gpu_layers cpu_moe expert_count : Int64)
      → IsInt64 (combined_host_bytes fl weights block_count gpu_layers cpu_moe expert_count)
  unfolding combined_host_bytes
  combined_host_bytes-IsInt64 weights block_count gpu_layers cpu_moe expert_count =
      if_IsInt64 _ _ _ (add64-IsInt64 _ _) (to_int_lt _)

  -- Routed experts in host memory: for weights of zero or more bytes the GPU share and the host share
  -- add up to the weights, and the host share is no larger.
  moe_weight_distribution-IsSplitOf :
      (weights block_count cpu_moe expert_count : Int64)
      → IsNonneg weights
      → IsSplitOf weights (moe_weight_distribution fl weights block_count cpu_moe expert_count)
  unfolding moe_weight_distribution
  moe_weight_distribution-IsSplitOf weights block_count cpu_moe expert_count h =
      ground
        (arith, expert_bytes-IsInt64 weights block_count (at_most block_count cpu_moe) expert_count)

  -- Layers on the CPU and routed experts in host memory together: for weights of zero or more bytes
  -- the GPU share and the host share add up to the weights, and the host share is no larger.
  combined_moe_weight_distribution-IsSplitOf :
      (weights block_count gpu_layers cpu_moe expert_count : Int64)
      → IsNonneg weights
      → IsSplitOf weights
          (combined_moe_weight_distribution fl weights block_count gpu_layers cpu_moe expert_count)
  unfolding combined_moe_weight_distribution
  combined_moe_weight_distribution-IsSplitOf weights block_count gpu_layers cpu_moe expert_count h =
      ground
        (arith, combined_host_bytes-IsInt64 weights block_count gpu_layers cpu_moe expert_count)

  rounded_share-le :
      (weights : Int64) (fraction : F)
      → IsNonneg weights
      → at_most weights (at_least_zero (to_int (round (mul (of_int weights) fraction)))) ≤ weights
  rounded_share-le weights fraction h = bounded-le weights _ h (to_int_lt _)

  -- The weight bytes on GPU are at most the weights.
  pub weights_on_gpu-le :
      (input : DemandInput) (weights : Int64) (fraction : F) (cpu_only : Bool)
      → IsNonneg weights
      → weights_on_gpu fl input weights fraction cpu_only ≤ weights
  unfolding weights_on_gpu
  weights_on_gpu-le input weights fraction true h = rounded_share-le weights fraction h
  weights_on_gpu-le input weights fraction false h =
      let blocks = input.metadata.block_count in
      let whole = rounded_share-le weights fraction h in
      elim (Option-cases (cpu_moe_blocks input.options blocks)) [
        | inl e ↦ rw e whole
        | inr (cpu_moe, e) ↦ rw e (
            if_le weights _ _ _
              (split_left-le weights _
                (combined_moe_weight_distribution-IsSplitOf weights blocks
                  (gpu_layer_count fl blocks fraction false) cpu_moe input.metadata.expert_count h)
                h)
              whole)
      ]

  weights_on_gpu-le_all :
      (input : DemandInput)
      → IsInt64 input.weights_bytes
      → let weights = at_least_zero input.weights_bytes in
        let offload = gpu_offload_fraction fl input.options input.metadata.block_count in
        weights_on_gpu fl input weights offload.0 offload.1 ≤ weights
  weights_on_gpu-le_all input h =
      weights_on_gpu-le input _ _ _ (at_least_zero-IsNonneg input.weights_bytes h)

  -- Every byte of the weights, the cache and the overhead is planned for once: on the host, or on
  -- GPU as a part that can be split or one that cannot. The sums wrap, so this holds of any sizes.
  pub estimate_demand_total :
      (input : DemandInput)
      → IsInt64 input.weights_bytes
      → let d = estimate_demand fl input in
        add64 (add64 d.host_ram_bytes d.gpu_splittable_bytes) d.gpu_fixed_bytes
        ≡ add64 (add64 d.weights_bytes d.kv_cache_bytes) d.runtime_overhead_bytes
  unfolding estimate_demand
  estimate_demand_total input h =
      let offload = gpu_offload_fraction fl input.options input.metadata.block_count in
      parts_total _ _ _ _ _ offload.1 (kv_on_gpu input.options offload.1)
        (weights_on_gpu-le_all input h) (at_least_zero-IsNonneg input.weights_bytes h)

  -- Where the whole demand is below 2 ^ 63 nothing wraps: host RAM and VRAM add up to it, and the
  -- VRAM is the part that can be split and the part that cannot.
  pub estimate_demand_exact :
      (input : DemandInput)
      → IsInt64 input.weights_bytes
      → IsInt64 input.companion_bytes
      → let d = estimate_demand fl input in
        at_least_zero input.weights_bytes
            + at_least_zero input.companion_bytes
            + d.kv_cache_bytes
            + d.runtime_overhead_bytes
          < 2 ^ 63
        → (d.host_ram_bytes + vram_bytes d
            ≡ d.weights_bytes + d.kv_cache_bytes + d.runtime_overhead_bytes)
          × (vram_bytes d ≡ d.gpu_splittable_bytes + d.gpu_fixed_bytes)
  unfolding estimate_demand vram_bytes listed
  estimate_demand_exact input h hc small =
      let offload = gpu_offload_fraction fl input.options input.metadata.block_count in
      parts_exact _ _ _ _ _ offload.1 (kv_on_gpu input.options offload.1)
        (weights_on_gpu-le_all input h) small
