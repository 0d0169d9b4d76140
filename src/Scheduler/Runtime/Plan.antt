-- ===== src/Scheduler/Runtime/Plan.antt =====
-- backend/internal/scheduler/runtime_plan.go: the order in which `PlanRuntime` tries the launches.
use llama_rack.Base.{Bool, true, false, ◌&&◌, ◌||◌, not, Option, none, some, if◌then◌else◌, is_nil}
use llama_rack.Base.Int64.{lt64}
use llama_rack.Base.Text.{codes, text_eq}
use llama_rack.Base.Maps.{put}
use llama_rack.Base.Float.{Float64}
use llama_rack.Scheduler.Options.{Options}
use llama_rack.Scheduler.Errors.{Result, ok, err, ◌>>=◌}
use llama_rack.Scheduler.Placement.{bare_placement}
use llama_rack.Scheduler.Runtime.{
  RuntimePlanRequest, RuntimePlan, OptionLocks, runtime_option_locks_for, gpu_layer_option_key,
  runtime_host_ram_fits, demand_for, evaluate_runtime_candidate, plan_automatic_moe,
  plan_dense_partial,
}

-- The first plan of two attempts; an error of the first one ends the planning.
abbrev pub or_else : Result (Option RuntimePlan) → Result RuntimePlan → Result RuntimePlan
or_else attempt rest = attempt >>= λ found. elim found [ none ↦ rest | some plan ↦ ok plan ]

module _ (fl : Float64) where
  -- The plan of a host without GPUs.
  unfoldable pub cpu_plan : RuntimePlanRequest → Options → RuntimePlan
  cpu_plan req base =
      let key = gpu_layer_option_key req.capabilities in
      let options = if is_nil key then base else put key (codes "0") base in
      let demand_options =
        if is_nil key then put (codes "n-gpu-layers") (codes "0") base else options in
      let demand = demand_for fl req.demand demand_options in
      record {
        fits = runtime_host_ram_fits req.snapshot demand.host_ram_bytes;
        mode = codes "cpu";
        demand = demand;
        placement = bare_placement 0 true;
        options = options;
        requires_spillover = false;
      }

  unfoldable pub moe_attempt :
      RuntimePlanRequest → Options → OptionLocks → Result (Option RuntimePlan)
  moe_attempt req base locks =
      if lt64 0 req.demand.metadata.expert_count && req.capabilities.n_cpu_moe && not locks.moe
      then plan_automatic_moe fl req base locks
      else ok none

  -- Whether the layers on GPU may be chosen.
  unfoldable pub layers_open : RuntimePlanRequest → OptionLocks → Bool
  layers_open req locks =
      not locks.gpu_layers && not (is_nil (gpu_layer_option_key req.capabilities))

  unfoldable pub dense_attempt :
      RuntimePlanRequest → Options → OptionLocks → Result (Option RuntimePlan)
  dense_attempt req base locks =
      if layers_open req locks then plan_dense_partial fl req base false else ok none

  -- A plan that fits and spills.
  abbrev pub spilled : RuntimePlan → Option RuntimePlan
  spilled plan = if plan.fits then some (record plan { requires_spillover = true }) else none

  unfoldable pub kv_attempt :
      RuntimePlanRequest → Options → OptionLocks → Result (Option RuntimePlan)
  kv_attempt req base locks =
      let moved =
        evaluate_runtime_candidate fl req (put (codes "no-kv-offload") (codes "true") base) true
        >>= λ plan. ok (spilled plan) in
      if not locks.kv && req.capabilities.no_kv_offload
      then if layers_open req locks then plan_dense_partial fl req base true else moved
      else ok none

  unfoldable pub cpu_attempt :
      RuntimePlanRequest → Options → OptionLocks → Result (Option RuntimePlan)
  cpu_attempt req base locks =
      let key = gpu_layer_option_key req.capabilities in
      let moved = evaluate_runtime_candidate fl req (put key (codes "0") base) true >>= λ plan. ok (
        if plan.fits
        then some (record plan { mode = codes "cpu"; requires_spillover = true })
        else none) in
      if layers_open req locks then moved else ok none

  -- `PlanRuntime` behind its look at the idle snapshot.
  unfoldable pub plan_runtime_now : RuntimePlanRequest → Result RuntimePlan
  plan_runtime_now req =
      let base = req.demand.options in
      let locks = runtime_option_locks_for base in
      let attempts : RuntimePlan → Result RuntimePlan = λ full.
        or_else (moe_attempt req base locks) (
          if not req.allow_system_spillover
          then ok full
          else or_else (dense_attempt req base locks) (
              or_else (kv_attempt req base locks)
                (or_else (cpu_attempt req base locks) (ok full)))) in
      if is_nil req.snapshot.gpus
      then if locks.gpu_layers
        then evaluate_runtime_candidate fl req base false
        else ok (cpu_plan req base)
      else (evaluate_runtime_candidate fl req base false >>= λ full.
          if full.fits then ok full else attempts full)

  -- Experts stay on GPU where the model would fit so on the idle host.
  unfoldable pub without_moe : RuntimePlanRequest → RuntimePlanRequest
  without_moe req = record req {
    capabilities = record (req.capabilities) { n_cpu_moe = false; cpu_moe = false };
  }

  abbrev pub fits_on_gpus : RuntimePlan → Bool
  fits_on_gpus plan =
      plan.fits && (text_eq plan.mode (codes "full") || text_eq plan.mode (codes "multi_gpu"))

  unfoldable pub plan_runtime : RuntimePlanRequest → Result RuntimePlan
  plan_runtime req =
      let locks = runtime_option_locks_for req.demand.options in
      let asks = not req.allow_system_spillover && req.capabilities.n_cpu_moe && not locks.moe in
      let settled = record req { idle_snapshot = none } in
      elim req.idle_snapshot [
        | none ↦ plan_runtime_now req
        | some idle ↦
            let idle_plan = plan_runtime_now (record settled { snapshot = idle }) in
            let fits_idle : Bool = elim idle_plan [ err e ↦ false | ok plan ↦ fits_on_gpus plan ] in
            plan_runtime_now (if asks && fits_idle then without_moe req else req)
      ]
