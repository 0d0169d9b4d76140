-- ===== src/Scheduler/Runtime/Boundary.antt =====
-- backend/internal/scheduler/runtime_plan.go: the binary search of `planAutomaticMoE`
-- ends at a boundary of what fits.
pub mod Last
use llama_rack.Base.{◌+◌, ◌-◌, ◌/◌, ◌^◌, ◌≤◌, ◌<◌, Bool, true, false, ◌≡◌, ◌⊎◌, arith}
use llama_rack.Base.Int64.{Int64, sub64, lt64, div64-nonneg}
use llama_rack.Scheduler.Errors.{Result, ok}
use llama_rack.Scheduler.Runtime.Search.{middle}

pub middle-eq : (lo hi : Int64) → lo ≤ hi → hi < 2 ^ 63 → middle lo hi ≡ lo + (hi - lo) / 2
middle-eq lo hi h k = omega (arith, div64-nonneg (sub64 hi lo) 2 (omega arith) (omega arith))

pub lt64-done : (lo hi : Int64) → lo ≡ hi + 1 → lo < 2 ^ 63 → lt64 hi lo ≡ true
lt64-done lo hi h k = ground arith

pub lt64-more : (lo hi : Int64) → lo ≤ hi → hi < 2 ^ 63 → lt64 hi lo ≡ false
lt64-more lo hi h k = ground arith

-- A number of the range that fits, and whose predecessor in the range does not; or 0, and the last
-- number does not fit.
abbrev pub IsFirstFit : (Int64 → Bool) → Int64 → Int64 → Type 0
IsFirstFit good blocks r =
    ((r ≡ 0) × (good blocks ≡ false))
    ⊎ ((1 ≤ r) × (r ≤ blocks) × (good r ≡ true) × ((r ≡ 1) ⊎ (good (r - 1) ≡ false)))

module _ (probe : Int64 → Result Bool) (good : Int64 → Bool)
    (answers : (k : Int64) → probe k ≡ ok (good k)) (blocks : Int64) (some_block : 1 ≤ blocks)
    (small : blocks + 1 < 2 ^ 63) where
  -- The searched range, what stands below it, and what stands above it.
  record FirstRange (lo hi found : Int64) : Type 0 where
    lower : 1 ≤ lo
    ordered : lo ≤ hi + 1
    upper : hi ≤ blocks
    below : (lo ≡ 1) ⊎ (good (lo - 1) ≡ false)
    above :
        ((found ≡ 0) × (hi ≡ blocks)) ⊎ ((found ≡ hi + 1) × (good found ≡ true) × (found ≤ blocks))
