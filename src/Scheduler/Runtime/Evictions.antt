-- ===== src/Scheduler/Runtime/Evictions.antt =====
-- backend/internal/scheduler/eviction.go: a runtime eviction plan that fits is enough for `PlanRuntime`.
use llama_rack.Base.{
  true, ◌≡◌, refl, List, [], ◌∷◌, ◌++◌, All, All-append, Bool-cases, inl, inr, subst,
}
use llama_rack.Base.Float.{Float64}
use llama_rack.Hardware.{Snapshot}
use llama_rack.Scheduler.Errors.{Result, ok, err, Result-cases}
use llama_rack.Scheduler.Eviction.{Candidate, Plan, rank_eviction_candidates, plan_from_selection}
use llama_rack.Scheduler.Eviction.Cover.{releases_nothing}
use llama_rack.Scheduler.Eviction.Sound.{IsEvictable, ranked-IsEvictable}
use llama_rack.Scheduler.Runtime.{RuntimePlanRequest, RuntimePlan}
use llama_rack.Scheduler.Runtime.Plan.{plan_runtime}
use llama_rack.Scheduler.Runtime.Admission.{
  Trial, runtime_plan_progress, runtime_evictions_from, plan_runtime_evictions_with_snapshots,
  plan_or_zero,
}

module _ (fl : Float64) (snapshot_for : List Candidate → Snapshot)
    (request : RuntimePlanRequest) where
  -- The launch as planned on the snapshot that these victims leave.
  abbrev pub plan_without : List Candidate → Result RuntimePlan
  plan_without victims = plan_runtime fl (record request { snapshot = snapshot_for victims })

  -- The victims may be stopped, and if the plan fits, so does the launch without them.
  pub record IsSound (plan : Plan) : Type 0 where
    pub victims : All IsEvictable plan.evict
    pub enough :
        plan.fits ≡ true
        → (p : RuntimePlan) × (plan_without plan.evict ≡ ok p)
          × (p.fits ≡ true)
          × (plan.devices ≡ p.placement.devices)

  record IsTracked (t : Trial) : Type 0 where
    victims : All IsEvictable t.selected
    planned : t.current.fits ≡ true → plan_without t.selected ≡ ok t.current

  selection-IsSound :
      (selected : List Candidate) (current : RuntimePlan)
      → All IsEvictable selected
      → (current.fits ≡ true → plan_without selected ≡ ok current)
      → IsSound (plan_from_selection selected current.placement current.fits)
  unfolding plan_from_selection
  selection-IsSound selected current h p = record {
    victims = h;
    enough = λ f. (current, p f, f, refl);
  }

  runtime_evictions_from-IsSound :
      (t : Trial) (cs : List Candidate)
      → IsTracked t
      → All IsEvictable cs
      → IsSound (runtime_evictions_from fl snapshot_for request t cs)
  unfolding runtime_evictions_from
  runtime_evictions_from-IsSound t [] k h =
      selection-IsSound t.selected t.current k.victims k.planned
  runtime_evictions_from-IsSound t (c ∷ cs) k h =
      let skipped = runtime_evictions_from-IsSound t cs k h.1 in
      let trial = t.selected ++ (c ∷ []) in
      let snapshot = snapshot_for trial in
      let stopped = All-append IsEvictable t.selected (c ∷ []) k.victims (h.0, tt) in
      elim (Bool-cases (releases_nothing c)) [
        | inl e ↦ rw e skipped
        | inr e ↦ elim (Result-cases (plan_without trial)) [
          | inr (_, p) ↦ rw (e, p) skipped
          | inl (after, p) ↦
              elim (Bool-cases
                (runtime_plan_progress t.current after t.snapshot snapshot request.placement)) [
                  | inr m ↦ rw (e, p, m) skipped
                  | inl m ↦ elim (Bool-cases after.fits) [
                    | inl f ↦
                        rw (e, p, m)
                          (simp f (
                            subst (λ b. IsSound (plan_from_selection trial after.placement b)) f
                              (selection-IsSound trial after stopped (λ _. p))))
                    | inr f ↦
                        rw (e, p, m)
                          (simp f (
                            runtime_evictions_from-IsSound
                              (record { selected = trial; current = after; snapshot = snapshot }) cs
                              (record { victims = stopped; planned = λ _. p }) h.1))
                  ]
                ]
        ]
      ]

  plan_or_zero-planned :
      (r : Result RuntimePlan) → (plan_or_zero r).fits ≡ true → r ≡ ok (plan_or_zero r)
  plan_or_zero-planned (ok p) f = refl
  plan_or_zero-planned (err e) f = cc

  pub plan_runtime_evictions-IsSound :
      (candidates : List Candidate)
      → IsSound (plan_runtime_evictions_with_snapshots fl snapshot_for candidates request)
  unfolding plan_runtime_evictions_with_snapshots
  plan_runtime_evictions-IsSound candidates =
      let current = plan_or_zero (plan_without []) in
      elim (Bool-cases current.fits) [
        | inl f ↦ simp f (record {
          victims = tt;
          enough = λ _. (current, plan_or_zero-planned (plan_without []) f, f, refl);
        })
        | inr f ↦ simp f (
            runtime_evictions_from-IsSound
              (record { selected = []; current = current; snapshot = snapshot_for [] })
              (rank_eviction_candidates candidates)
              (record { victims = tt; planned = plan_or_zero-planned (plan_without []) })
              (ranked-IsEvictable candidates))
      ]

  -- A plan of `PlanRuntimeEvictionsWithSnapshots` that says that the launch fits stops evictable
  -- instances only, and on the snapshot without those `PlanRuntime` returns a launch that fits, on
  -- the plan's devices.
  pub plan_runtime_evictions-frees_enough :
      (candidates : List Candidate)
      → (plan_runtime_evictions_with_snapshots fl snapshot_for candidates request).fits ≡ true
      → let plan = plan_runtime_evictions_with_snapshots fl snapshot_for candidates request in
        All IsEvictable plan.evict
        × (p : RuntimePlan) × (plan_without plan.evict ≡ ok p)
        × (p.fits ≡ true)
        × (plan.devices ≡ p.placement.devices)
  plan_runtime_evictions-frees_enough candidates fits =
      let sound = plan_runtime_evictions-IsSound candidates in
      let (p, planned, placed, devices) = sound.enough fits in
      (sound.victims, p, planned, placed, devices)
