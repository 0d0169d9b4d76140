-- ===== src/Scheduler/Demand.antt =====
-- backend/internal/scheduler/demand.go: the memory that a worker will need, split over host and GPU.
pub mod Split
use llama_rack.Base.{
  ◌*◌, Bool, true, false, ◌&&◌, ◌||◌, not, Option, none, some, List, [], ◌∷◌, ◌==◌, if◌then◌else◌,
  is_nil,
}
use llama_rack.Base.Int64.{Int64, add64, sub64, mul64, div64, lt64, le64}
use llama_rack.Base.Text.{Text, codes, trim_space, parse_int}
use llama_rack.Base.Float.{Float64}
use llama_rack.Scheduler.Options.{
  Options, option_value, option_enabled, cache_element_bytes, kv_on_gpu, parse_context_option,
}

abbrev pub mib : Int64
mib = 1024 * 1024

abbrev pub default_demand_context : Int64
default_demand_context = 4096

abbrev pub min_runtime_overhead : Int64
min_runtime_overhead = 256 * mib

pub record GpuResourceDemand : Type 0 where
  pub device_id : Text
  pub bytes : Int64

pub record ResourceDemand : Type 0 where
  pub host_ram_bytes : Int64
  pub weights_bytes : Int64
  pub kv_cache_bytes : Int64
  pub runtime_overhead_bytes : Int64
  pub gpu_splittable_bytes : Int64
  pub gpu_fixed_bytes : Int64
  pub gpu : List GpuResourceDemand
  pub confidence : Text

unfoldable pub sum_bytes : Int64 → List GpuResourceDemand → Int64
sum_bytes total [] = total
sum_bytes total (g ∷ gpus) = sum_bytes (add64 total g.bytes) gpus

unfoldable pub vram_bytes : ResourceDemand → Int64
unfolding sum_bytes
vram_bytes d = sum_bytes 0 d.gpu

pub record KvMetadata : Type 0 where
  pub architecture : Text
  pub context_length : Int64
  pub block_count : Int64
  pub embedding : Int64
  pub head_count : Int64
  pub kv_head_count : Int64
  pub key_length : Int64
  pub value_length : Int64
  pub expert_count : Int64

-- `metadata_err` is the message of an error, if there is one.
pub record DemandInput : Type 0 where
  pub weights_bytes : Int64
  pub companion_bytes : Int64
  pub context : Int64
  pub metadata : KvMetadata
  pub metadata_err : Option Text
  pub options : Options

-- if x < 0 { x = 0 }
abbrev pub at_least_zero : Int64 → Int64
at_least_zero x = if lt64 x 0 then 0 else x

-- if x > limit { x = limit }
abbrev pub at_most : Int64 → Int64 → Int64
at_most limit x = if lt64 limit x then limit else x

unfoldable pub estimate_kv_bytes : Int64 → KvMetadata → Options → Int64
estimate_kv_bytes context m options =
    let kv_heads = if le64 m.kv_head_count 0 then m.head_count else m.kv_head_count in
    let head_dim = div64 m.embedding m.head_count in
    let key_dim = if le64 m.key_length 0 then head_dim else m.key_length in
    let value_dim = if le64 m.value_length 0 then head_dim else m.value_length in
    let key_bytes = cache_element_bytes options (codes "cache-type-k") in
    let value_bytes = cache_element_bytes options (codes "cache-type-v") in
    if le64 context 0 || le64 m.block_count 0 || le64 m.embedding 0 || le64 m.head_count 0
    then 0
    else if le64 head_dim 0 || le64 key_dim 0 || le64 value_dim 0
    then 0
    else mul64 (mul64 (mul64 context m.block_count) kv_heads)
        (add64 (mul64 key_dim key_bytes) (mul64 value_dim value_bytes))

unfoldable pub demand_confidence : KvMetadata → Option Text → Text
demand_confidence m err =
    let known : Bool = elim err [ none ↦ true | some message ↦ false ] in
    if known && lt64 0 m.block_count && lt64 0 m.embedding && lt64 0 m.head_count
    then codes "high"
    else if not (is_nil m.architecture) || lt64 0 m.context_length || lt64 0 m.block_count
    then codes "medium"
    else codes "low"

-- The number of blocks whose experts stay in host memory, if an option says so.
unfoldable pub cpu_moe_blocks : Options → Int64 → Option Int64
cpu_moe_blocks options block_count =
    if le64 block_count 0
    then none
    else if option_enabled options (codes "cpu-moe")
    then some block_count
    else elim (parse_int (trim_space (option_value options (codes "n-cpu-moe")))) [
      | none ↦ none
      | some value ↦ if lt64 value 0 || lt64 block_count value then none else some value
    ]

-- The text of `gpu-layers`, or else of `n-gpu-layers`.
unfoldable pub gpu_layers_text : Options → Text
gpu_layers_text options =
    let raw = option_value options (codes "gpu-layers") in
    if is_nil raw then option_value options (codes "n-gpu-layers") else raw

module _ (fl : Float64) where
  open fl use {F, constant, of_int, to_int, mul, div, min, ceil, round, le}

  unfoldable pub expert_weight_share : Int64 → F
  expert_weight_share expert_count =
      if lt64 1 expert_count
      then min (constant 85 100) (div (of_int (sub64 expert_count 1)) (of_int expert_count))
      else constant 75 100

  -- The rounded share of the weights that the experts of `blocks` blocks take.
  unfoldable pub expert_bytes : Int64 → Int64 → Int64 → Int64 → Int64
  expert_bytes weights block_count blocks expert_count = to_int (
      round (
        div (mul (mul (of_int weights) (expert_weight_share expert_count)) (of_int blocks))
          (of_int block_count)))

  -- GPU bytes and host bytes.
  unfoldable pub moe_weight_distribution : Int64 → Int64 → Int64 → Int64 → Int64 × Int64
  moe_weight_distribution weights block_count cpu_moe expert_count =
      let host = expert_bytes weights block_count (at_most block_count cpu_moe) expert_count in
      let bounded = at_most weights (at_least_zero host) in
      if le64 weights 0
      then (0, 0)
      else if le64 block_count 0 || le64 cpu_moe 0 || le64 expert_count 0
      then (weights, 0)
      else (sub64 weights bounded, bounded)

  -- The host bytes of the layers on the CPU and of the experts of the other layers, not yet bounded.
  unfoldable pub combined_host_bytes : Int64 → Int64 → Int64 → Int64 → Int64 → Int64
  combined_host_bytes weights block_count gpu_layers cpu_moe expert_count =
      let layers = at_most block_count (at_least_zero gpu_layers) in
      let moe = at_most block_count (at_least_zero cpu_moe) in
      let full_cpu = sub64 block_count layers in
      let extra = at_least_zero (sub64 moe full_cpu) in
      let full =
        to_int (round (div (mul (of_int weights) (of_int full_cpu)) (of_int block_count))) in
      if lt64 0 extra && lt64 0 expert_count
      then add64 full (expert_bytes weights block_count extra expert_count)
      else full

  unfoldable pub combined_moe_weight_distribution :
      Int64 → Int64 → Int64 → Int64 → Int64 → Int64 × Int64
  combined_moe_weight_distribution weights block_count gpu_layers cpu_moe expert_count =
      let host = combined_host_bytes weights block_count gpu_layers cpu_moe expert_count in
      let bounded = at_most weights (at_least_zero host) in
      if le64 weights 0
      then (0, 0)
      else if le64 block_count 0
      then (weights, 0)
      else (sub64 weights bounded, bounded)

  unfoldable pub gpu_layer_count : Int64 → F → Bool → Int64
  gpu_layer_count block_count fraction cpu_only =
      if cpu_only || le64 block_count 0
      then 0
      else if le (constant 1 1) fraction
      then block_count
      else if le fraction (constant 0 1)
      then 0
      else to_int (round (mul (of_int block_count) fraction))

  -- The share of the layers on GPU, and whether the worker runs on the CPU alone.
  unfoldable pub gpu_offload_fraction : Options → Int64 → F × Bool
  gpu_offload_fraction options block_count =
      elim (parse_int (trim_space (gpu_layers_text options))) [
        | none ↦ (constant 1 1, false)
        | some layers ↦
            if lt64 layers 0
            then (constant 1 1, false)
            else if layers == 0
            then (constant 0 1, true)
            else if le64 block_count 0 || le64 block_count layers
            then (constant 1 1, false)
            else (div (of_int layers) (of_int block_count), false)
      ]

  -- The weight bytes on GPU.
  unfoldable pub weights_on_gpu : DemandInput → Int64 → F → Bool → Int64
  weights_on_gpu input weights fraction cpu_only =
      let share =
        at_most weights (at_least_zero (to_int (round (mul (of_int weights) fraction)))) in
      let blocks = input.metadata.block_count in
      let experts = input.metadata.expert_count in
      if cpu_only then share else elim (cpu_moe_blocks input.options blocks) [
        | none ↦ share
        | some cpu_moe ↦
            if lt64 0 experts
            then sub64 weights
                (combined_moe_weight_distribution weights blocks
                  (gpu_layer_count blocks fraction cpu_only) cpu_moe experts).1
            else share
      ]

  unfoldable pub demand_context : DemandInput → Int64
  demand_context input =
      let given =
        if le64 input.context 0 then parse_context_option input.options else input.context in
      if le64 given 0 then default_demand_context else given

  unfoldable pub runtime_overhead : Int64 → Int64
  runtime_overhead total_weights =
      let overhead = to_int (ceil (mul (of_int total_weights) (constant 5 100))) in
      if lt64 overhead min_runtime_overhead then min_runtime_overhead else overhead

  unfoldable pub estimate_demand : DemandInput → ResourceDemand
  estimate_demand input =
      let weights = at_least_zero input.weights_bytes in
      let companion = at_least_zero input.companion_bytes in
      let total_weights = add64 weights companion in
      let overhead = runtime_overhead total_weights in
      let kv = estimate_kv_bytes (demand_context input) input.metadata input.options in
      let (fraction, cpu_only) = gpu_offload_fraction input.options input.metadata.block_count in
      let kv_gpu = kv_on_gpu input.options cpu_only in
      let weights_gpu = weights_on_gpu input weights fraction cpu_only in
      let kv_gpu_bytes = if kv_gpu then kv else 0 in
      let kv_ram_bytes = if kv_gpu then 0 else kv in
      let overhead_gpu = if cpu_only then 0 else overhead in
      let overhead_ram = if cpu_only then overhead else 0 in
      let companion_gpu = if cpu_only then 0 else companion in
      let companion_ram = if cpu_only then companion else 0 in
      let vram = add64 (add64 (add64 weights_gpu companion_gpu) kv_gpu_bytes) overhead_gpu in
      record {
        host_ram_bytes =
            add64 (add64 (add64 (sub64 weights weights_gpu) companion_ram) kv_ram_bytes)
              overhead_ram;
        weights_bytes = total_weights;
        kv_cache_bytes = kv;
        runtime_overhead_bytes = overhead;
        gpu_splittable_bytes = weights_gpu;
        gpu_fixed_bytes = add64 (add64 companion_gpu kv_gpu_bytes) overhead_gpu;
        gpu = if lt64 0 vram then record { device_id = []; bytes = vram } ∷ [] else [];
        confidence = demand_confidence input.metadata input.metadata_err;
      }
