-- ===== src/Scheduler/Placement/Single.antt =====
-- backend/internal/scheduler/placement.go: a single adequate GPU wins over spreading.
use llama_rack.Base.{
  ℕ, ◌≡◌, refl, ap, sym, ◌∙◌, true, false, List, [], ◌∷◌, arith, ◌≤◌, if◌then◌else◌, ltb, some,
  subst, All, All-map, ◌⊎◌, inl, inr, Bool-cases,
}
use llama_rack.Base.Int64.{Int64, IsNonneg, lt64}
use llama_rack.Base.Text.{codes, to_lower, trim_space, text_eq}
use llama_rack.Base.Float.{Float64}
use llama_rack.Hardware.{Gpu, Snapshot}
use llama_rack.Scheduler.Errors.{ok}
use llama_rack.Scheduler.Placement.{
  PlacementRequest, Placement, first_adequate, auto_placement, plan_placement,
}
use llama_rack.Scheduler.Placement.Gpus.{usable_vram, gpu_before, insert_gpu, sorted_gpus_by_usable}
use llama_rack.Scheduler.Placement.Auto.{usable_vram-IsNonneg, sorted-cons, reserve_of}

-- The most usable bytes that one GPU has.
abbrev pub largest_usable : Int64 → List Gpu → ℕ
largest_usable reserve [] = 0
largest_usable reserve (g ∷ gpus) =
    let rest = largest_usable reserve gpus in
    if ltb rest (usable_vram g reserve) then usable_vram g reserve else rest

abbrev pub IsOneOf : Gpu → List Gpu → Type 0
IsOneOf g [] = ⊥
IsOneOf g (h ∷ gpus) = (g ≡ h) ⊎ IsOneOf g gpus

All-IsOneOf : (gpus : List Gpu) → All (λ g. IsOneOf g gpus) gpus
All-IsOneOf [] = tt
All-IsOneOf (g ∷ gpus) = (
  inl refl,
  All-map (λ h. IsOneOf h gpus) (λ h. IsOneOf h (g ∷ gpus)) gpus (λ h. inr) (All-IsOneOf gpus),
)

-- No GPU has more usable bytes than the first one.
abbrev IsTopFirst : Int64 → List Gpu → Type 0
IsTopFirst reserve [] = Unit
IsTopFirst reserve (g ∷ gpus) = largest_usable reserve gpus ≤ usable_vram g reserve

insert_gpu-largest :
    (reserve : Int64) (g : Gpu) (gpus : List Gpu)
    → largest_usable reserve (insert_gpu reserve g gpus) ≡ largest_usable reserve (g ∷ gpus)
unfolding insert_gpu
insert_gpu-largest reserve g [] = refl
insert_gpu-largest reserve g (h ∷ gpus) = ground (arith, insert_gpu-largest reserve g gpus)

sorted-largest :
    (reserve : Int64) (gpus : List Gpu)
    → largest_usable reserve (sorted_gpus_by_usable reserve gpus) ≡ largest_usable reserve gpus
unfolding sorted_gpus_by_usable
sorted-largest reserve [] = refl
sorted-largest reserve (g ∷ gpus) =
    let rest = sorted-largest reserve gpus in
    insert_gpu-largest reserve g (sorted_gpus_by_usable reserve gpus) ∙ rw rest refl

gpu_before-ordered :
    (reserve : Int64) (a b : Gpu)
    → if gpu_before reserve a b
      then usable_vram b reserve ≤ usable_vram a reserve
      else usable_vram a reserve ≤ usable_vram b reserve
unfolding gpu_before
gpu_before-ordered reserve a b =
    ground (arith, usable_vram-IsNonneg a reserve, usable_vram-IsNonneg b reserve)

insert_gpu-IsTopFirst :
    (reserve : Int64) (g : Gpu) (gpus : List Gpu)
    → IsTopFirst reserve gpus
    → IsTopFirst reserve (insert_gpu reserve g gpus)
unfolding insert_gpu
insert_gpu-IsTopFirst reserve g [] h = omega arith
insert_gpu-IsTopFirst reserve g (top ∷ gpus) h =
    ground (arith, gpu_before-ordered reserve top g, insert_gpu-largest reserve g gpus)

sorted-IsTopFirst :
    (reserve : Int64) (gpus : List Gpu) → IsTopFirst reserve (sorted_gpus_by_usable reserve gpus)
unfolding sorted_gpus_by_usable
sorted-IsTopFirst reserve [] = tt
sorted-IsTopFirst reserve (g ∷ gpus) =
    insert_gpu-IsTopFirst reserve g (sorted_gpus_by_usable reserve gpus)
      (sorted-IsTopFirst reserve gpus)

insert_gpu-All :
    (P : Gpu → Type 0) (reserve : Int64) (g : Gpu) (gpus : List Gpu)
    → P g
    → All P gpus
    → All P (insert_gpu reserve g gpus)
unfolding insert_gpu
insert_gpu-All P reserve g [] p h = (p, tt)
insert_gpu-All P reserve g (top ∷ gpus) p h = elim (Bool-cases (gpu_before reserve top g)) [
  | inl e ↦ rw e (h.0, insert_gpu-All P reserve g gpus p h.1)
  | inr e ↦ rw e (p, h)
]

sorted-All :
    (P : Gpu → Type 0) (reserve : Int64) (gpus : List Gpu)
    → All P gpus
    → All P (sorted_gpus_by_usable reserve gpus)
unfolding sorted_gpus_by_usable
sorted-All P reserve [] h = tt
sorted-All P reserve (g ∷ gpus) h =
    insert_gpu-All P reserve g (sorted_gpus_by_usable reserve gpus) h.0
      (sorted-All P reserve gpus h.1)

first_adequate-top :
    (reserve required : Int64) (top : Gpu) (gpus : List Gpu)
    → IsTopFirst reserve (top ∷ gpus)
    → IsNonneg required
    → required ≤ largest_usable reserve (top ∷ gpus)
    → first_adequate reserve required (top ∷ gpus) ≡ some top
unfolding first_adequate
first_adequate-top reserve required top gpus t h k =
    ground (arith, usable_vram-IsNonneg top reserve)

top_is_largest :
    (reserve : Int64) (top : Gpu) (gpus : List Gpu)
    → IsTopFirst reserve (top ∷ gpus)
    → usable_vram top reserve ≡ largest_usable reserve (top ∷ gpus)
top_is_largest reserve top gpus t = ground arith

-- Where a GPU holds the request alone, that GPU is the placement.
auto_placement-chosen :
    (request : PlacementRequest) (reserve : Int64) (gpus : List Gpu) (top : Gpu)
    → first_adequate reserve request.required_bytes gpus ≡ some top
    → let placement = auto_placement request reserve gpus in
      (placement.fits ≡ true)
      × (placement.devices ≡ top.id ∷ [])
      × (placement.available_bytes ≡ usable_vram top reserve)
unfolding auto_placement
auto_placement-chosen request reserve gpus top e = rw (auto_placement, e) (refl, refl, refl)

-- In automatic mode, a request of zero or more bytes that one GPU holds alone is placed on one GPU of
-- the host, which has the most usable bytes of all, and fits, however much more the GPUs have
-- together.
pub plan_placement-single_first :
    (fl : Float64) (snapshot : Snapshot) (request : PlacementRequest) (g : Gpu) (gpus : List Gpu)
    → snapshot.gpus ≡ g ∷ gpus
    → to_lower (trim_space request.mode) ≡ codes "auto"
    → IsNonneg request.required_bytes
    → request.required_bytes ≤ largest_usable (reserve_of request) (g ∷ gpus)
    → (placement : Placement) × (plan_placement fl snapshot request ≡ ok placement)
      × (placement.fits ≡ true)
      × (top : Gpu) × IsOneOf top (g ∷ gpus)
      × (placement.devices ≡ top.id ∷ [])
      × (usable_vram top (reserve_of request) ≡ largest_usable (reserve_of request) (g ∷ gpus))
      × (placement.available_bytes ≡ usable_vram top (reserve_of request))
unfolding plan_placement text_eq
plan_placement-single_first fl snapshot request g gpus e m h k =
    let reserve = reserve_of request in
    let positive : lt64 request.required_bytes 0 ≡ false = ground arith in
    let (top, rest, s) = sorted-cons reserve g gpus in
    let most = sorted-largest reserve (g ∷ gpus) in
    let largest : largest_usable reserve (top ∷ rest) ≡ largest_usable reserve (g ∷ gpus) =
      ap (largest_usable reserve) (sym s) ∙ most in
    let first : IsTopFirst reserve (top ∷ rest) =
      subst (IsTopFirst reserve) s (sorted-IsTopFirst reserve (g ∷ gpus)) in
    let within =
      subst (All (λ h. IsOneOf h (g ∷ gpus))) s
        (sorted-All (λ h. IsOneOf h (g ∷ gpus)) reserve (g ∷ gpus) (All-IsOneOf (g ∷ gpus))) in
    let chosen =
      subst (λ l. first_adequate reserve request.required_bytes l ≡ some top) (sym s)
        (first_adequate-top reserve request.required_bytes top rest first h
          (omega (arith, largest, k))) in
    let (fits, single, available) =
      auto_placement-chosen request reserve (sorted_gpus_by_usable reserve (g ∷ gpus)) top chosen in
    (
      auto_placement request reserve (sorted_gpus_by_usable reserve (g ∷ gpus)),
      simp (e, m, positive) refl,
      fits,
      top,
      within.0,
      single,
      top_is_largest reserve top rest first ∙ largest,
      available,
    )
