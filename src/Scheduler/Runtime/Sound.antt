-- ===== src/Scheduler/Runtime/Sound.antt =====
-- backend/internal/scheduler/runtime_plan.go: a plan is what its own options come to.
use llama_rack.Base.{Bool, true, false, ◌≡◌, refl, Option, none, some, ◌&&◌, if◌then◌else◌, subst}
use llama_rack.Base.Text.{Text, codes}
use llama_rack.Base.Float.{Float64}
use llama_rack.Scheduler.Options.{Options}
use llama_rack.Scheduler.Errors.{Result, ok, err, ◌>>=◌}
use llama_rack.Scheduler.Runtime.{
  RuntimePlanRequest, RuntimePlan, OptionLocks, demand_for, plan_demand_placement,
  runtime_host_ram_fits, evaluate_runtime_candidate, plan_all_experts, moe_plan, moe_options,
  plan_automatic_moe, plan_dense_partial,
}
use llama_rack.Scheduler.Runtime.Search.{first_fit, last_fit}
use llama_rack.Scheduler.Runtime.Plan.{or_else}

-- Whatever a computation returns satisfies `P`.
pub record Post {A : Type 0} (P : A → Type 0) (r : Result A) : Type 0 where
  pub at : (a : A) → r ≡ ok a → P a

module _ {A : Type 0} {P : A → Type 0} where
  pub Post-ok : (a : A) → P a → Post P (ok a)
  Post-ok a p = record { at = λ b e. subst P (cc) p }

  pub Post-if : (b : Bool) {x y : Result A} → Post P x → Post P y → Post P (if b then x else y)
  Post-if true p q = p
  Post-if false p q = q

  pub Post-bind :
      {B : Type 0} (m : Result B) (f : B → Result A)
      → ((b : B) → m ≡ ok b → Post P (f b))
      → Post P (m >>= f)
  Post-bind (ok b) f h = h b refl
  Post-bind (err e) f h = record { at = λ a p. cc }

-- The same of a plan that may be missing.
abbrev pub OnSome : {A : Type 0} → (A → Type 0) → Option A → Type 0
OnSome P none = Unit
OnSome P (some a) = P a

pub OnSome-if :
    {A : Type 0} (P : A → Type 0) (b : Bool) (a : A)
    → (b ≡ true → P a)
    → OnSome P (if b then some a else none)
OnSome-if P true a h = h refl
OnSome-if P false a h = tt

pub Post-or_else :
    {P : RuntimePlan → Type 0} (m : Result (Option RuntimePlan)) (rest : Result RuntimePlan)
    → Post (OnSome P) m
    → Post P rest
    → Post P (or_else m rest)
Post-or_else (ok none) rest h k = k
Post-or_else (ok (some plan)) rest h k = Post-ok plan (h.at (some plan) refl)
Post-or_else (err e) rest h k = record { at = λ a p. cc }

module _ (fl : Float64) (req : RuntimePlanRequest) where
  -- The plan's demand is that of its options, its placement is planned for that demand, and it fits
  -- exactly if the placement and the host memory do.
  pub record IsPlanned (plan : RuntimePlan) : Type 0 where
    pub demanded : plan.demand ≡ demand_for fl req.demand plan.options
    pub placed : plan_demand_placement fl req.placement req.snapshot plan.demand ≡ ok plan.placement
    pub fitting :
        plan.fits
        ≡ (plan.placement.fits && runtime_host_ram_fits req.snapshot plan.demand.host_ram_bytes)

  pub evaluate-Post :
      (options : Options) (spill : Bool)
      → Post IsPlanned (evaluate_runtime_candidate fl req options spill)
  unfolding evaluate_runtime_candidate
  evaluate-Post options spill =
      Post-bind
        (plan_demand_placement fl req.placement req.snapshot (demand_for fl req.demand options)) _
        λ placement e. Post-ok _ (record { demanded = refl; placed = e; fitting = refl })

  -- A planned launch that fits.
  pub record IsFitting (plan : RuntimePlan) : Type 0 where
    pub planned : IsPlanned plan
    pub fits : plan.fits ≡ true

  -- Neither the mode nor the mark of spilling matters.
  pub relabelled :
      (plan : RuntimePlan) (mode : Text) (spill : Bool)
      → IsPlanned plan
      → plan.fits ≡ true
      → IsFitting (record plan { mode = mode; requires_spillover = spill })
  relabelled plan mode spill p e = record {
    planned = record { demanded = p.demanded; placed = p.placed; fitting = p.fitting };
    fits = e;
  }

  -- An attempt evaluates some options and keeps the plan, under a label, if it fits.
  pub attempted :
      (options : Options) (spill : Bool) (keep : RuntimePlan → Option RuntimePlan)
      → ((plan : RuntimePlan) → IsPlanned plan → OnSome IsFitting (keep plan))
      → Post
          (OnSome IsFitting)
          (evaluate_runtime_candidate fl req options spill >>= λ plan. ok (keep plan))
  attempted options spill keep h =
      Post-bind (evaluate_runtime_candidate fl req options spill) _
        λ plan e. Post-ok _ (h plan ((evaluate-Post options spill).at plan e))

  moe_plan-OnSome : (plan : RuntimePlan) → IsPlanned plan → OnSome IsFitting (moe_plan fl plan)
  moe_plan-OnSome plan p =
      OnSome-if IsFitting plan.fits _ (relabelled plan (codes "moe") plan.requires_spillover p)

  plan_all_experts-Post :
      (base : Options) (locks : OptionLocks)
      → Post (OnSome IsFitting) (plan_all_experts fl req base locks)
  unfolding plan_all_experts
  plan_all_experts-Post base locks =
      Post-if _ (Post-ok none tt) (attempted _ false (moe_plan fl) moe_plan-OnSome)

  pub plan_automatic_moe-Post :
      (base : Options) (locks : OptionLocks)
      → Post (OnSome IsFitting) (plan_automatic_moe fl req base locks)
  unfolding plan_automatic_moe
  plan_automatic_moe-Post base locks =
      let all_experts = plan_all_experts-Post base locks in
      Post-if _ (Post-ok none tt) (
        Post-bind (first_fit _ 64 1 req.demand.metadata.block_count 0) _ λ first _.
          Post-if _
            (Post-bind (evaluate_runtime_candidate fl req (moe_options fl req base first) false) _
              λ plan e.
                Post-if _ (Post-ok _ (moe_plan-OnSome plan ((evaluate-Post _ false).at plan e)))
                  all_experts)
            all_experts)

  pub plan_dense_partial-Post :
      (base : Options) (move_kv : Bool)
      → Post (OnSome IsFitting) (plan_dense_partial fl req base move_kv)
  unfolding plan_dense_partial
  plan_dense_partial-Post base move_kv = Post-if _ (Post-ok none tt) (
      Post-bind (last_fit _ 64 1 req.demand.metadata.block_count 0) _ λ best _.
        Post-if _ (Post-ok none tt) (
          attempted _ true _
            λ plan p. OnSome-if IsFitting plan.fits _ (relabelled plan plan.mode true p)))
