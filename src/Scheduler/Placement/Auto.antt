-- ===== src/Scheduler/Placement/Auto.antt =====
-- backend/internal/scheduler/placement.go: when automatic placement fits.
use llama_rack.Base.{
  ℕ, ◌≡◌, refl, ap, sym, true, false, List, [], ◌∷◌, ◌++◌, arith, inl, inr, ◌<◌, ◌^◌, ◌+◌, ◌∙◌,
  if◌then◌else◌, leb, none, some, Option-cases, Bool-cases,
}
use llama_rack.Base.Int64.{Int64, IsNonneg, add64, le64, lt64}
use llama_rack.Base.Text.{codes, to_lower, trim_space, text_eq}
use llama_rack.Base.Float.{Float64}
use llama_rack.Hardware.{Gpu, Snapshot}
use llama_rack.Scheduler.Errors.{ok}
use llama_rack.Scheduler.Placement.{
  PlacementRequest, Placement, Spread, first_adequate, spread_over, no_spread, auto_placement,
  plan_placement, default_vram_reserve,
}
use llama_rack.Scheduler.Placement.Gpus.{usable_vram, gpu_before, insert_gpu, sorted_gpus_by_usable}

abbrev pub total_usable : Int64 → List Gpu → ℕ
total_usable reserve [] = 0
total_usable reserve (g ∷ gpus) = usable_vram g reserve + total_usable reserve gpus

pub usable_vram-IsNonneg : (g : Gpu) (reserve : Int64) → IsNonneg (usable_vram g reserve)
unfolding usable_vram
usable_vram-IsNonneg g reserve = ground arith

-- A request that one GPU holds is held by all of them.
first_adequate-some :
    (reserve required : Int64) (gpus : List Gpu) {found : Gpu}
    → IsNonneg required
    → first_adequate reserve required gpus ≡ some found
    → leb required (total_usable reserve gpus) ≡ true
unfolding first_adequate
first_adequate-some reserve required [] h e = cc
first_adequate-some reserve required (g ∷ gpus) {found} h e =
    let u = usable_vram-IsNonneg g reserve in
    ground (arith, u, first_adequate-some reserve required gpus {found = found} h)

-- Where no GPU holds it, something is required.
first_adequate-none :
    (reserve required : Int64) (g : Gpu) (gpus : List Gpu)
    → first_adequate reserve required (g ∷ gpus) ≡ none
    → 0 < required
unfolding first_adequate
first_adequate-none reserve required g gpus e = ground arith

spread_over-fits :
    (reserve required : Int64) (s : Spread) (gpus : List Gpu)
    → IsNonneg required
    → s.available < required
    → s.fits ≡ false
    → s.available + total_usable reserve gpus < 2 ^ 63
    → (spread_over reserve required s gpus).fits
      ≡ leb required (s.available + total_usable reserve gpus)
unfolding spread_over
spread_over-fits reserve required s [] h k f b = ground (arith, f)
spread_over-fits reserve required s (g ∷ gpus) h k f b =
    let u = usable_vram-IsNonneg g reserve in
    let usable = usable_vram g reserve in
    let added = add64 s.available usable in
    let grown : Spread = record {
      devices = s.devices ++ (g.id ∷ []);
      available = added;
      weights = s.weights ++ (usable ∷ []);
      fits = s.fits;
    } in
    elim (Bool-cases (le64 usable 0)) [
      | inl e ↦
          let none_usable : usable ≡ 0 = ground (arith, u, e) in
          rw e (
            spread_over-fits reserve required s gpus h k f (omega arith)
            ∙ ap (leb required) (omega arith))
      | inr e ↦ elim (Bool-cases (le64 required added)) [
        | inl d ↦ rw (e, d) (ground (arith, d))
        | inr d ↦
            rw (e, d)
              (spread_over-fits reserve required grown gpus h (ground (arith, d)) f (omega arith)
                ∙ ap (leb required) (omega arith))
      ]
    ]

insert_gpu-total :
    (reserve at : Int64) (g : Gpu) (gpus : List Gpu)
    → total_usable reserve (insert_gpu at g gpus)
      ≡ usable_vram g reserve + total_usable reserve gpus
unfolding insert_gpu
insert_gpu-total reserve at g [] = refl
insert_gpu-total reserve at g (h ∷ gpus) = ground (arith, insert_gpu-total reserve at g gpus)

sorted-total :
    (reserve at : Int64) (gpus : List Gpu)
    → total_usable reserve (sorted_gpus_by_usable at gpus) ≡ total_usable reserve gpus
unfolding sorted_gpus_by_usable
sorted-total reserve at [] = refl
sorted-total reserve at (g ∷ gpus) =
    insert_gpu-total reserve at g (sorted_gpus_by_usable at gpus)
    ∙ omega (arith, sorted-total reserve at gpus)

auto_placement-fits :
    (request : PlacementRequest) (reserve : Int64) (g : Gpu) (gpus : List Gpu)
    → IsNonneg request.required_bytes
    → total_usable reserve (g ∷ gpus) < 2 ^ 63
    → (auto_placement request reserve (g ∷ gpus)).fits
      ≡ leb request.required_bytes (total_usable reserve (g ∷ gpus))
unfolding auto_placement
auto_placement-fits request reserve g gpus h b =
    let required = request.required_bytes in
    elim (Option-cases (first_adequate reserve required (g ∷ gpus))) [
      | inl e ↦
          rw (auto_placement, e)
            (spread_over-fits reserve required no_spread (g ∷ gpus) h
                (first_adequate-none reserve required g gpus e) refl (omega arith)
              ∙ ap (leb required) (omega arith))
      | inr (found, e) ↦
          rw
            (auto_placement, e, first_adequate-some reserve required (g ∷ gpus) {found = found} h e)
            refl
    ]

-- A list that something was inserted into has a head.
insert_gpu-cons :
    (at : Int64) (g : Gpu) (gpus : List Gpu)
    → (h : Gpu) × (rest : List Gpu) × (insert_gpu at g gpus ≡ h ∷ rest)
unfolding insert_gpu
insert_gpu-cons at g [] = (g, [], refl)
insert_gpu-cons at g (h ∷ gpus) = elim (Bool-cases (gpu_before at h g)) [
  | inl e ↦ (h, insert_gpu at g gpus, rw e refl)
  | inr e ↦ (g, h ∷ gpus, rw e refl)
]

pub sorted-cons :
    (at : Int64) (g : Gpu) (gpus : List Gpu)
    → (h : Gpu) × (rest : List Gpu) × (sorted_gpus_by_usable at (g ∷ gpus) ≡ h ∷ rest)
unfolding sorted_gpus_by_usable
sorted-cons at g gpus = insert_gpu-cons at g (sorted_gpus_by_usable at gpus)

sorted_placement-fits :
    (request : PlacementRequest) (reserve : Int64) (g : Gpu) (gpus : List Gpu)
    → IsNonneg request.required_bytes
    → total_usable reserve (g ∷ gpus) < 2 ^ 63
    → (auto_placement request reserve (sorted_gpus_by_usable reserve (g ∷ gpus))).fits
      ≡ leb request.required_bytes (total_usable reserve (g ∷ gpus))
sorted_placement-fits request reserve g gpus h b =
    let total = sorted-total reserve reserve (g ∷ gpus) in
    let (top, rest, e) = sorted-cons reserve g gpus in
    let same : total_usable reserve (top ∷ rest) ≡ total_usable reserve (g ∷ gpus) =
      ap (total_usable reserve) (sym e) ∙ total in
    rw e (
      auto_placement-fits request reserve top rest h (omega (arith, same, b))
      ∙ ap (leb request.required_bytes) same)

-- The reserve a request is planned with.
abbrev pub reserve_of : PlacementRequest → Int64
reserve_of request =
    if le64 request.reserve_bytes 0 then default_vram_reserve else request.reserve_bytes

-- Automatic placement on a host with GPUs never fails, and it fits exactly if the required bytes are
-- no more than the usable bytes of all GPUs together, as long as those are an `int64`.
pub plan_placement-fits_iff :
    (fl : Float64) (snapshot : Snapshot) (request : PlacementRequest) (g : Gpu) (gpus : List Gpu)
    → snapshot.gpus ≡ g ∷ gpus
    → to_lower (trim_space request.mode) ≡ codes "auto"
    → IsNonneg request.required_bytes
    → total_usable (reserve_of request) (g ∷ gpus) < 2 ^ 63
    → (placement : Placement) × (plan_placement fl snapshot request ≡ ok placement)
      × (placement.fits ≡ leb request.required_bytes (total_usable (reserve_of request) (g ∷ gpus)))
unfolding plan_placement text_eq
plan_placement-fits_iff fl snapshot request g gpus e m h b =
    let positive : lt64 request.required_bytes 0 ≡ false = ground arith in
    (
      auto_placement request (reserve_of request)
          (sorted_gpus_by_usable (reserve_of request) (g ∷ gpus)),
      simp (e, m, positive) refl,
      sorted_placement-fits request (reserve_of request) g gpus h b,
    )
