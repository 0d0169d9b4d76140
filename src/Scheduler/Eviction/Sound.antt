-- ===== src/Scheduler/Eviction/Sound.antt =====
-- backend/internal/scheduler/eviction.go: a plan that fits frees enough, and stops only instances
-- that may be stopped.
use llama_rack.Base.{
  Bool, true, ◌≡◌, refl, sym, List, [], ◌∷◌, ◌++◌, All, All-append, Bool-cases, inl, inr, ◌&&◌,
  &&_split, keep, subst,
}
use llama_rack.Base.Float.{Float64}
use llama_rack.Hardware.{Snapshot}
use llama_rack.Scheduler.Errors.{ok, Result-cases}
use llama_rack.Scheduler.Placement.{Placement, PlacementRequest, plan_placement}
use llama_rack.Scheduler.Eviction.{
  Candidate, Plan, is_evictable, rank_eviction_candidates, sort_candidates,
  snapshot_with_candidate_credits, plan_from_selection, host_ram_fits,
}
use llama_rack.Scheduler.Eviction.Rank.{insert_candidate-All}
use llama_rack.Scheduler.Eviction.Cover.{
  Cover, releases_nothing, makes_progress, plan_of_cover, cover_from, cover_placement,
}

abbrev pub IsEvictable : Candidate → Type 0
IsEvictable c = is_evictable c ≡ true

keep-All : {A : Type 0} (p : A → Bool) (xs : List A) → All (λ x. p x ≡ true) (keep p xs)
unfolding keep
keep-All p [] = tt
keep-All p (x ∷ xs) = elim (Bool-cases (p x)) [
  | inl e ↦ rw e (e, keep-All p xs)
  | inr e ↦ rw e (keep-All p xs)
]

sort_candidates-All :
    (P : Candidate → Type 0) (cs : List Candidate) → All P cs → All P (sort_candidates cs)
unfolding sort_candidates
sort_candidates-All P [] h = tt
sort_candidates-All P (c ∷ cs) h =
    insert_candidate-All P c (sort_candidates cs) h.0 (sort_candidates-All P cs h.1)

pub ranked-IsEvictable : (cs : List Candidate) → All IsEvictable (rank_eviction_candidates cs)
unfolding rank_eviction_candidates
ranked-IsEvictable cs =
    sort_candidates-All IsEvictable (keep is_evictable cs) (keep-All is_evictable cs)

-- The host as it is once the victims have stopped.
abbrev pub host_without : Snapshot → List Candidate → Snapshot
host_without base [] = base
host_without base (c ∷ cs) = snapshot_with_candidate_credits base (c ∷ cs)

host_without-append :
    (base : Snapshot) (cs : List Candidate) (c : Candidate)
    → host_without base (cs ++ (c ∷ [])) ≡ snapshot_with_candidate_credits base (cs ++ (c ∷ []))
host_without-append base [] c = refl
host_without-append base (d ∷ ds) c = refl

module _ (fl : Float64) (base : Snapshot) (request : PlacementRequest) where
  -- The victims may be stopped, and if the plan fits, so does the request without them.
  pub record IsSound (plan : Plan) : Type 0 where
    pub victims : All IsEvictable plan.evict
    pub enough :
        plan.fits ≡ true
        → (p : Placement) × (plan_placement fl (host_without base plan.evict) request ≡ ok p)
          × (p.fits ≡ true)
          × (host_ram_fits (host_without base plan.evict) request.host_ram_bytes ≡ true)
          × (plan.devices ≡ p.devices)

  record IsTracked (s : Cover) : Type 0 where
    victims : All IsEvictable s.selected
    viewed : s.snapshot ≡ host_without base s.selected
    planned : plan_placement fl s.snapshot request ≡ ok s.current

  plan_of_cover-IsSound : (s : Cover) → IsTracked s → IsSound (plan_of_cover fl request s)
  unfolding plan_of_cover plan_from_selection
  plan_of_cover-IsSound s t = record {
    victims = t.victims;
    enough = λ fits.
        let (placed, hosted) = &&_split _ _ fits in
        (
          s.current,
          subst (λ v. plan_placement fl v request ≡ ok s.current) t.viewed t.planned,
          placed,
          subst (λ v. host_ram_fits v request.host_ram_bytes ≡ true) t.viewed hosted,
          refl,
        );
  }

  cover_from-IsSound :
      (s : Cover) (cs : List Candidate)
      → IsTracked s
      → All IsEvictable cs
      → IsSound (cover_from fl base request s cs)
  unfolding cover_from
  cover_from-IsSound s [] t h = plan_of_cover-IsSound s t
  cover_from-IsSound s (c ∷ cs) t h =
      let skipped = cover_from-IsSound s cs t h.1 in
      elim (Bool-cases (releases_nothing c)) [
        | inl e ↦ rw e skipped
        | inr e ↦ elim (Result-cases (plan_placement fl snapshot request)) [
          | inr (_, p) ↦ rw (e, p) skipped
          | inl (after, p) ↦ elim (Bool-cases (makes_progress fl request s after snapshot)) [
            | inr m ↦ rw (e, p, m) skipped
            | inl m ↦
                elim (Bool-cases (after.fits && host_ram_fits snapshot request.host_ram_bytes)) [
                  | inl f ↦ rw (e, p, m, f) (plan_of_cover-IsSound _ (tracked after p))
                  | inr f ↦
                      rw (e, p, m, f)
                        (cover_from-IsSound
                          (record { selected = trial; current = after; snapshot = snapshot }) cs
                          (tracked after p) h.1)
                ]
          ]
        ]
      ]
    where
      trial : List Candidate
      trial = s.selected ++ (c ∷ [])

      snapshot : Snapshot
      snapshot = snapshot_with_candidate_credits base trial

      tracked :
          (after : Placement)
          → plan_placement fl snapshot request ≡ ok after
          → IsTracked (record { selected = trial; current = after; snapshot = snapshot })
      tracked after p = record {
        victims = All-append IsEvictable s.selected (c ∷ []) t.victims (h.0, tt);
        viewed = sym (host_without-append base s.selected c);
        planned = p;
      }

  pub cover_placement-IsSound :
      (candidates : List Candidate) → IsSound (cover_placement fl candidates base request)
  unfolding cover_placement plan_from_selection
  cover_placement-IsSound candidates = elim (Result-cases (plan_placement fl base request)) [
    | inr (_, e) ↦ rw (e, cover_placement) (record { victims = tt; enough = λ f. cc })
    | inl (current, e) ↦
        elim (Bool-cases (current.fits && host_ram_fits base request.host_ram_bytes)) [
          | inl f ↦
              let (placed, hosted) = &&_split _ _ f in
              rw (e, f, cover_placement)
                (record { victims = tt; enough = λ _. (current, e, placed, hosted, refl) })
          | inr f ↦
              rw (e, f, cover_placement)
                (cover_from-IsSound (record { selected = []; current = current; snapshot = base })
                  (rank_eviction_candidates candidates)
                  (record { victims = tt; viewed = refl; planned = e })
                  (ranked-IsEvictable candidates))
        ]
  ]

  -- A plan of `coverPlacement` that says that the request fits stops evictable instances only, and
  -- on the host as those leave it placement fits, on the plan's devices, and so does the host memory.
  pub cover_placement-frees_enough :
      (candidates : List Candidate)
      → (cover_placement fl candidates base request).fits ≡ true
      → let plan = cover_placement fl candidates base request in
        All IsEvictable plan.evict
        × (p : Placement) × (plan_placement fl (host_without base plan.evict) request ≡ ok p)
        × (p.fits ≡ true)
        × (host_ram_fits (host_without base plan.evict) request.host_ram_bytes ≡ true)
        × (plan.devices ≡ p.devices)
  cover_placement-frees_enough candidates fits =
      let sound = cover_placement-IsSound candidates in
      let (p, planned, placed, hosted, devices) = sound.enough fits in
      (sound.victims, p, planned, placed, hosted, devices)
