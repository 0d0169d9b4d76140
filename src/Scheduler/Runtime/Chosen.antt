-- ===== src/Scheduler/Runtime/Chosen.antt =====
-- backend/internal/scheduler/runtime_plan.go: `PlanRuntime` on a host with GPUs.
use llama_rack.Base.{
  Bool, true, false, ◌≡◌, ◌⊎◌, inl, inr, refl, Option-cases, Option, none, some, List, ◌∷◌,
  if◌then◌else◌,
}
use llama_rack.Base.Text.{codes}
use llama_rack.Base.Float.{Float64}
use llama_rack.Hardware.{Gpu}
use llama_rack.Scheduler.Options.{Options}
use llama_rack.Scheduler.Errors.{Result, ok}
use llama_rack.Scheduler.Runtime.{
  RuntimePlanRequest, RuntimePlan, OptionLocks, evaluate_runtime_candidate, demand_for,
  plan_demand_placement, runtime_option_locks_for,
}
use llama_rack.Scheduler.Runtime.Plan.{
  moe_attempt, dense_attempt, kv_attempt, cpu_attempt, spilled, plan_runtime_now, plan_runtime,
  without_moe,
}
use llama_rack.Scheduler.Runtime.Sound.{
  Post, OnSome, Post-ok, Post-if, Post-bind, OnSome-if, Post-or_else, IsPlanned, IsFitting,
  evaluate-Post, relabelled, attempted, plan_automatic_moe-Post, plan_dense_partial-Post,
}

module _ (fl : Float64) where
  -- A planned launch that fits, or else the launch that was asked for.
  pub record IsChosen (req : RuntimePlanRequest) (plan : RuntimePlan) : Type 0 where
    pub planned : IsPlanned fl req plan
    pub kept : (plan.fits ≡ true) ⊎ (plan.options ≡ req.demand.options)

  fitting-IsChosen :
      (req : RuntimePlanRequest) (plan : RuntimePlan) → IsFitting fl req plan → IsChosen req plan
  fitting-IsChosen req plan p = record { planned = p.planned; kept = inl p.fits }

  IsChosen-OnSome :
      (req : RuntimePlanRequest) (found : Option RuntimePlan)
      → OnSome (IsFitting fl req) found
      → OnSome (IsChosen req) found
  IsChosen-OnSome req none h = tt
  IsChosen-OnSome req (some plan) h = fitting-IsChosen req plan h

  IsChosen-Post :
      (req : RuntimePlanRequest) (m : Result (Option RuntimePlan))
      → Post (OnSome (IsFitting fl req)) m
      → Post (OnSome (IsChosen req)) m
  IsChosen-Post req m h = record { at = λ found e. IsChosen-OnSome req found (h.at found e) }

  module _ (req : RuntimePlanRequest) (base : Options) (locks : OptionLocks) where
    moe_attempt-Post : Post (OnSome (IsFitting fl req)) (moe_attempt fl req base locks)
    unfolding moe_attempt
    moe_attempt-Post = Post-if _ (plan_automatic_moe-Post fl req base locks) (Post-ok none tt)

    dense_attempt-Post : Post (OnSome (IsFitting fl req)) (dense_attempt fl req base locks)
    unfolding dense_attempt
    dense_attempt-Post = Post-if _ (plan_dense_partial-Post fl req base false) (Post-ok none tt)

    kv_attempt-Post : Post (OnSome (IsFitting fl req)) (kv_attempt fl req base locks)
    unfolding kv_attempt
    kv_attempt-Post =
        Post-if _
          (Post-if _ (plan_dense_partial-Post fl req base true) (
            attempted fl req _ true (spilled fl) λ plan p.
              OnSome-if (IsFitting fl req) plan.fits _ (relabelled fl req plan plan.mode true p)))
          (Post-ok none tt)

    cpu_attempt-Post : Post (OnSome (IsFitting fl req)) (cpu_attempt fl req base locks)
    unfolding cpu_attempt
    cpu_attempt-Post =
        Post-if _
          (attempted fl req _ true _ λ plan p.
            OnSome-if (IsFitting fl req) plan.fits _ (relabelled fl req plan (codes "cpu") true p))
          (Post-ok none tt)

  evaluate_options-Post :
      (req : RuntimePlanRequest) (options : Options) (spill : Bool)
      → Post (λ plan. plan.options ≡ options) (evaluate_runtime_candidate fl req options spill)
  unfolding evaluate_runtime_candidate
  evaluate_options-Post req options spill =
      Post-bind
        (plan_demand_placement fl req.placement req.snapshot (demand_for fl req.demand options)) _
        λ placement e. Post-ok _ refl

  full-IsChosen :
      (req : RuntimePlanRequest) (full : RuntimePlan)
      → evaluate_runtime_candidate fl req req.demand.options false ≡ ok full
      → IsChosen req full
  full-IsChosen req full e = record {
    planned = (evaluate-Post fl req req.demand.options false).at full e;
    kept = inr ((evaluate_options-Post req req.demand.options false).at full e);
  }

  plan_runtime_now-Post :
      (req : RuntimePlanRequest) (gpu : Gpu) (others : List Gpu)
      → req.snapshot.gpus ≡ gpu ∷ others
      → Post (IsChosen req) (plan_runtime_now fl req)
  unfolding plan_runtime_now
  plan_runtime_now-Post req gpu others g =
      let base = req.demand.options in
      let locks = runtime_option_locks_for base in
      simp g (
        Post-bind (evaluate_runtime_candidate fl req base false) _ λ full e.
          let settled = Post-ok full (full-IsChosen req full e) in
          Post-if _ settled (
            Post-or_else (moe_attempt fl req base locks) _
              (IsChosen-Post req _ (moe_attempt-Post req base locks))
              (Post-if _ settled (
                Post-or_else (dense_attempt fl req base locks) _
                  (IsChosen-Post req _ (dense_attempt-Post req base locks))
                  (Post-or_else (kv_attempt fl req base locks) _
                    (IsChosen-Post req _ (kv_attempt-Post req base locks))
                    (Post-or_else (cpu_attempt fl req base locks) _
                      (IsChosen-Post req _ (cpu_attempt-Post req base locks)) settled))))))

  -- The request without its experts in host memory asks for the same launch.
  without_moe-IsChosen :
      (req : RuntimePlanRequest) (plan : RuntimePlan)
      → IsChosen (without_moe fl req) plan
      → IsChosen req plan
  unfolding without_moe
  without_moe-IsChosen req plan p =
      let q = p.planned in
      record {
        planned = record { demanded = q.demanded; placed = q.placed; fitting = q.fitting };
        kept = p.kept;
      }

  lenient-Post :
      (b : Bool) (req : RuntimePlanRequest) (gpu : Gpu) (others : List Gpu)
      → req.snapshot.gpus ≡ gpu ∷ others
      → Post (IsChosen req) (plan_runtime_now fl (if b then without_moe fl req else req))
  unfolding without_moe
  lenient-Post true req gpu others g = record {
    at = λ plan e.
        without_moe-IsChosen req plan
          ((plan_runtime_now-Post (without_moe fl req) gpu others g).at plan e);
  }
  lenient-Post false req gpu others g = plan_runtime_now-Post req gpu others g

  plan_runtime-Post :
      (req : RuntimePlanRequest) (gpu : Gpu) (others : List Gpu)
      → req.snapshot.gpus ≡ gpu ∷ others
      → Post (IsChosen req) (plan_runtime fl req)
  unfolding plan_runtime
  plan_runtime-Post req gpu others g = elim (Option-cases req.idle_snapshot) [
    | inl e ↦ simp (plan_runtime, e) (plan_runtime_now-Post req gpu others g)
    | inr (idle, e) ↦ simp (plan_runtime, e) (lenient-Post _ req gpu others g)
  ]

  -- On a host with GPUs, a plan that `PlanRuntime` returns is consistent with itself: its demand is
  -- estimated from the options it launches with, its placement is the placement planner's answer
  -- for that demand, and it fits exactly if that placement and the host memory do. And it fits, or
  -- else its options are the ones that were asked for.
  pub plan_runtime-IsChosen :
      (req : RuntimePlanRequest) (gpu : Gpu) (others : List Gpu) (plan : RuntimePlan)
      → req.snapshot.gpus ≡ gpu ∷ others
      → plan_runtime fl req ≡ ok plan
      → IsChosen req plan
  plan_runtime-IsChosen req gpu others plan g e = (plan_runtime-Post req gpu others g).at plan e
