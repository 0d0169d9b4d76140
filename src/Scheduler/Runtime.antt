-- ===== src/Scheduler/Runtime.antt =====
-- backend/internal/scheduler/runtime_plan.go: the launch options with which a worker fits, from the
-- whole model on GPU down to the CPU alone.
pub mod Search
pub mod Plan
pub mod Boundary
pub mod Sound
pub mod Chosen
pub mod Admission
pub mod Evictions
use llama_rack.Base.{
  ◌*◌, Bool, true, false, ◌&&◌, ◌||◌, not, Option, none, some, [], ◌==◌, ltb, if◌then◌else◌, is_nil,
  length,
}
use llama_rack.Base.Int64.{Int64, sub64, lt64, le64}
use llama_rack.Base.Text.{Text, codes, trim_space, parse_int, format_int, drop_while}
use llama_rack.Base.Maps.{put, delete}
use llama_rack.Base.Float.{Float64}
use llama_rack.Hardware.{Snapshot}
use llama_rack.Scheduler.Options.{Options, option_value, option_present, option_enabled}
use llama_rack.Scheduler.Errors.{Result, ok, ◌>>=◌}
use llama_rack.Scheduler.Demand.{DemandInput, ResourceDemand, vram_bytes, estimate_demand}
use llama_rack.Scheduler.Placement.{Placement, PlacementRequest, bare_placement, plan_placement}
use Search.{first_fit, last_fit}

abbrev pub default_ram_reserve : Int64
default_ram_reserve = 1024 * 1024 * 1024

pub record RuntimeCapabilities : Type 0 where
  pub n_cpu_moe : Bool
  pub cpu_moe : Bool
  pub no_kv_offload : Bool
  pub gpu_layers : Bool
  pub gpu_layers_option : Text

pub record RuntimePlanRequest : Type 0 where
  pub snapshot : Snapshot
  pub idle_snapshot : Option Snapshot
  pub demand : DemandInput
  pub placement : PlacementRequest
  pub allow_system_spillover : Bool
  pub capabilities : RuntimeCapabilities

pub record RuntimePlan : Type 0 where
  pub fits : Bool
  pub mode : Text
  pub demand : ResourceDemand
  pub placement : Placement
  pub options : Options
  pub requires_spillover : Bool

-- Which parts of the launch the user's own options fix.
pub record OptionLocks : Type 0 where
  pub gpu_layers : Bool
  pub moe : Bool
  pub kv : Bool

unfoldable pub runtime_option_locks_for : Options → OptionLocks
runtime_option_locks_for options = record {
  gpu_layers =
      option_present options (codes "gpu-layers") || option_present options (codes "n-gpu-layers");
  moe = option_present options (codes "cpu-moe") || option_present options (codes "n-cpu-moe");
  kv =
      option_present options (codes "no-kv-offload") || option_present options (codes "kv-offload");
}

unfoldable pub gpu_layer_option_key : RuntimeCapabilities → Text
gpu_layer_option_key capabilities =
    let key = trim_space capabilities.gpu_layers_option in
    if not (is_nil key)
    then drop_while (λ c. c == b'-') key
    else if capabilities.gpu_layers
    then codes "n-gpu-layers"
    else []

unfoldable pub gpu_layer_option_value : Options → Text
gpu_layer_option_value options =
    let value = option_value options (codes "gpu-layers") in
    if is_nil (trim_space value) then option_value options (codes "n-gpu-layers") else value

unfoldable pub runtime_host_ram_fits : Snapshot → Int64 → Bool
runtime_host_ram_fits snapshot required =
    if le64 required 0
    then true
    else if le64 snapshot.ram_total_bytes 0 && le64 snapshot.ram_available_bytes 0
    then false
    else if le64 snapshot.ram_available_bytes default_ram_reserve
    then false
    else le64 required (sub64 snapshot.ram_available_bytes default_ram_reserve)

unfoldable pub candidate_mode : Options → ResourceDemand → Placement → Text
candidate_mode options demand placement =
    let partial : Bool = elim (parse_int (trim_space (gpu_layer_option_value options))) [
      | none ↦ false
      | some layers ↦ lt64 0 layers
    ] in
    if vram_bytes demand == 0
    then codes "cpu"
    else if option_enabled options (codes "cpu-moe")
        || not (is_nil (trim_space (option_value options (codes "n-cpu-moe"))))
    then codes "moe"
    else if option_enabled options (codes "no-kv-offload")
    then codes "hybrid"
    else if partial
    then codes "partial"
    else if ltb 1 (length placement.devices)
    then codes "multi_gpu"
    else codes "full"

module _ (fl : Float64) where
  unfoldable pub demand_for : DemandInput → Options → ResourceDemand
  demand_for base options = estimate_demand fl (record base { options = options })

  unfoldable pub plan_demand_placement :
      PlacementRequest → Snapshot → ResourceDemand → Result Placement
  plan_demand_placement base snapshot demand =
      let required = vram_bytes demand in
      if required == 0
      then ok (bare_placement 0 true)
      else plan_placement fl snapshot (record base {
        required_bytes = required;
        host_ram_bytes = demand.host_ram_bytes;
        splittable_bytes = demand.gpu_splittable_bytes;
        fixed_bytes = demand.gpu_fixed_bytes;
      })

  unfoldable pub evaluate_runtime_candidate :
      RuntimePlanRequest → Options → Bool → Result RuntimePlan
  evaluate_runtime_candidate req options spill =
      let demand = demand_for req.demand options in
      plan_demand_placement req.placement req.snapshot demand >>= λ placement. ok (record {
        fits = placement.fits && runtime_host_ram_fits req.snapshot demand.host_ram_bytes;
        mode = candidate_mode options demand placement;
        demand = demand;
        placement = placement;
        options = options;
        requires_spillover = spill;
      })

  -- One probe of a binary search: whether the worker fits with these options.
  unfoldable pub probe_fits : RuntimePlanRequest → Options → Result Bool
  probe_fits req options =
      let demand = demand_for req.demand options in
      plan_demand_placement req.placement req.snapshot demand >>= λ placement.
      ok (placement.fits && runtime_host_ram_fits req.snapshot demand.host_ram_bytes)

  -- A plan that fits, in the mode "moe".
  abbrev moe_plan : RuntimePlan → Option RuntimePlan
  moe_plan plan = if plan.fits then some (record plan { mode = codes "moe" }) else none

  -- All experts in host memory, and the cache with them.
  unfoldable pub plan_all_experts :
      RuntimePlanRequest → Options → OptionLocks → Result (Option RuntimePlan)
  plan_all_experts req base locks =
      let caps = req.capabilities in
      let moved =
        if caps.cpu_moe
        then put (codes "cpu-moe") (codes "true") base
        else put (codes "n-cpu-moe") (format_int req.demand.metadata.block_count) base in
      let in_host = option_enabled moved (codes "no-kv-offload") in
      let options = if in_host then moved else put (codes "no-kv-offload") (codes "true") moved in
      if not in_host && (locks.kv || not caps.no_kv_offload)
      then ok none
      else (evaluate_runtime_candidate req options false >>= λ plan. ok (moe_plan plan))

  -- The options for the first number of blocks that fits.
  unfoldable pub moe_options : RuntimePlanRequest → Options → Int64 → Options
  moe_options req base first =
      let options = put (codes "n-cpu-moe") (format_int first) base in
      if le64 req.demand.metadata.block_count first && req.capabilities.cpu_moe
      then put (codes "cpu-moe") (codes "true") (delete (codes "n-cpu-moe") options)
      else options

  unfoldable pub plan_automatic_moe :
      RuntimePlanRequest → Options → OptionLocks → Result (Option RuntimePlan)
  plan_automatic_moe req base locks =
      let blocks = req.demand.metadata.block_count in
      let probe : Int64 → Result Bool =
        λ mid. probe_fits req (put (codes "n-cpu-moe") (format_int mid) base) in
      let all_experts = plan_all_experts req base locks in
      if le64 blocks 0
      then ok none
      else (first_fit probe 64 1 blocks 0 >>= λ first.
          if lt64 0 first
          then (evaluate_runtime_candidate req (moe_options req base first) false >>= λ plan.
              if plan.fits then ok (moe_plan plan) else all_experts)
          else all_experts)

  unfoldable pub plan_dense_partial :
      RuntimePlanRequest → Options → Bool → Result (Option RuntimePlan)
  plan_dense_partial req base move_kv =
      let blocks = req.demand.metadata.block_count in
      let key = gpu_layer_option_key req.capabilities in
      let options = if move_kv then put (codes "no-kv-offload") (codes "true") base else base in
      let probe : Int64 → Result Bool = λ mid. probe_fits req (put key (format_int mid) options) in
      if le64 blocks 0 || is_nil key
      then ok none
      else (last_fit probe 64 1 blocks 0 >>= λ best.
          if le64 best 0
          then ok none
          else (evaluate_runtime_candidate req (put key (format_int best) options) true >>= λ plan.
              ok (if plan.fits then some (record plan { requires_spillover = true }) else none)))
