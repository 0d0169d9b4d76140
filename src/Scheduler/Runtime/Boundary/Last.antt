-- ===== src/Scheduler/Runtime/Boundary/Last.antt =====
-- backend/internal/scheduler/runtime_plan.go: the binary search of `planDensePartial` ends at a boundary
-- of what fits.
use llama_rack.Base.{◌+◌, ◌^◌, ◌≤◌, ◌<◌, Bool, true, false, ◌≡◌, ◌⊎◌}
use llama_rack.Base.Int64.{Int64}
use llama_rack.Scheduler.Errors.{Result, ok}

-- A number of the range that fits, and whose successor in the range does not; or 0, and the first
-- number does not fit.
abbrev pub IsLastFit : (Int64 → Bool) → Int64 → Int64 → Type 0
IsLastFit good blocks r =
    ((r ≡ 0) × (good 1 ≡ false))
    ⊎ ((1 ≤ r) × (r ≤ blocks) × (good r ≡ true) × ((r ≡ blocks) ⊎ (good (r + 1) ≡ false)))

module _ (probe : Int64 → Result Bool) (good : Int64 → Bool)
    (answers : (k : Int64) → probe k ≡ ok (good k)) (blocks : Int64) (some_block : 1 ≤ blocks)
    (small : blocks + 1 < 2 ^ 63) where
  -- The searched range, what stands below it, and what stands above it.
  record LastRange (lo hi found : Int64) : Type 0 where
    lower : 1 ≤ lo
    ordered : lo ≤ hi + 1
    upper : hi ≤ blocks
    above : (hi ≡ blocks) ⊎ (good (hi + 1) ≡ false)
    below : ((found ≡ 0) × (lo ≡ 1)) ⊎ ((found + 1 ≡ lo) × (good found ≡ true) × (1 ≤ found))
