-- ===== src/Scheduler/Runtime/Search.antt =====
-- backend/internal/scheduler/runtime_plan.go: the binary searches of `planAutomaticMoE` and
-- `planDensePartial`, over a probe that may fail. Each round halves the range, so 64 rounds are
-- enough for the numbers of an `int64`; with no rounds left the search has not ended, and that is
-- an error.
use llama_rack.Base.{ℕ, zero, suc, Bool, true, false, if◌then◌else◌}
use llama_rack.Base.Int64.{Int64, add64, sub64, div64, lt64}
use llama_rack.Scheduler.Errors.{Result, ok, err, out_of_rounds}

abbrev pub middle : Int64 → Int64 → Int64
middle lo hi = add64 lo (div64 (sub64 hi lo) 2)

-- How a search goes on behind a probe.
abbrev pub choose : Result Bool → Result Int64 → Result Int64 → Result Int64
choose (ok true) fitting other = fitting
choose (ok false) fitting other = other
choose (err e) fitting other = err e

module _ (probe : Int64 → Result Bool) where
  -- The first number of a range at which the probe holds, or `found`.
  unfoldable pub first_fit : ℕ → Int64 → Int64 → Int64 → Result Int64
  first_fit zero lo hi found = err out_of_rounds
  first_fit (suc fuel) lo hi found =
      let mid = middle lo hi in
      let lower = first_fit fuel lo (sub64 mid 1) mid in
      let upper = first_fit fuel (add64 mid 1) hi found in
      if lt64 hi lo then ok found else choose (probe mid) lower upper

  -- The last number of a range at which the probe holds, or `found`.
  unfoldable pub last_fit : ℕ → Int64 → Int64 → Int64 → Result Int64
  last_fit zero lo hi found = err out_of_rounds
  last_fit (suc fuel) lo hi found =
      let mid = middle lo hi in
      let lower = last_fit fuel lo (sub64 mid 1) found in
      let upper = last_fit fuel (add64 mid 1) hi mid in
      if lt64 hi lo then ok found else choose (probe mid) upper lower
