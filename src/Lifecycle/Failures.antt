-- ===== src/Lifecycle/Failures.antt =====
-- backend/internal/lifecycle/start_failure.go: the back-off of instances that fail to start, and the
-- cases of `startOneWithEviction` (service.go) that record a failure or forget them. A time is in
-- nanoseconds from the zero time. The methods hold the mutex, so each is one step; next to the new state
-- stands whether the runtime is published again.
pub mod Backoff
pub mod Outcomes
use llama_rack.Base.{
  ℕ, zero, suc, ◌+◌, ◌-◌, ◌*◌, Bool, true, false, ◌||◌, Option, none, some, List, [], ◌∷◌, ltb,
  ◌==◌, if◌then◌else◌, not, is_nil, length,
}
use llama_rack.Base.Int64.{Int64, add64, sub64, le64}
use llama_rack.Base.Text.{Text}
use llama_rack.Base.Maps.{Map, lookup, lookup_or, put, delete}

abbrev pub Time : Type 0
Time = ℕ

abbrev pub seconds : ℕ → ℕ
seconds n = n * 1_000_000_000

pub record StartFailureState : Type 0 where
  pub consecutive_failures : Int64
  pub last_failure_at : Time
  pub last_error : Text
  pub retry_after : Time

abbrev pub no_failures : StartFailureState
no_failures = record {
  consecutive_failures = 0;
  last_failure_at = 0;
  last_error = [];
  retry_after = 0;
}

abbrev pub StartFailures : Type 0
StartFailures = Map StartFailureState

-- startFailureBackoffSchedule.
abbrev pub schedule : List ℕ
schedule = seconds 15 ∷ seconds 30 ∷ seconds 60 ∷ seconds 120 ∷ seconds 300 ∷ []

-- An element of a list; out of range it is the last one that is met.
unfoldable pub nth : ℕ → ℕ → List ℕ → ℕ
nth i d [] = d
nth zero d (x ∷ xs) = x
nth (suc i) d (x ∷ xs) = nth i x xs

-- The index is at most that of the last delay.
unfoldable pub start_failure_backoff_for_count : Int64 → ℕ
unfolding nth
start_failure_backoff_for_count failures =
    let index = sub64 failures 1 in
    let last = length schedule - 1 in
    if le64 failures 0
    then nth 0 0 schedule
    else nth (if le64 (length schedule) index then last else index) 0 schedule

unfoldable pub in_start_backoff : Text → Time → StartFailures → Bool
in_start_backoff id now m = elim (lookup id m) [
  | none ↦ false
  | some state ↦ if state.retry_after == 0 then false else ltb now state.retry_after
]

-- One failure more.
abbrev pub failed_again : Text → Time → StartFailureState → StartFailureState
failed_again error now state =
    let failures = add64 state.consecutive_failures 1 in
    record {
      consecutive_failures = failures;
      last_failure_at = now;
      last_error = error;
      retry_after = now + start_failure_backoff_for_count failures;
    }

unfoldable pub record_start_failure : Text → Text → Time → StartFailures → StartFailures × Bool
unfolding start_failure_backoff_for_count
record_start_failure id error now m =
    if is_nil id
    then (m, false)
    else (put id (failed_again error now (lookup_or no_failures id m)) m, true)

unfoldable pub override_start_backoff : Text → StartFailures → StartFailures × Bool
override_start_backoff id m = elim (lookup id m) [
  | none ↦ (m, false)
  | some state ↦
      if is_nil id
      then (m, false)
      else if state.retry_after == 0
      then (m, false)
      else (put id (record state { retry_after = 0 }) m, true)
]

unfoldable pub reset_start_failures : Text → StartFailures → StartFailures × Bool
reset_start_failures id m = elim (lookup id m) [
  | none ↦ (m, false)
  | some state ↦ if is_nil id then (m, false) else (delete id m, true)
]

-- The fields of `supervisor.Runtime` that are overlaid.
pub record Runtime : Type 0 where
  pub instance_id : Text
  pub last_error : Text
  pub consecutive_start_failures : Int64
  pub retry_after : Option Time

unfoldable pub attach_start_failure : StartFailures → Runtime → Runtime
attach_start_failure m runtime = elim (lookup runtime.instance_id m) [
  | none ↦ runtime
  | some state ↦ record runtime {
    consecutive_start_failures = state.consecutive_failures;
    retry_after = if state.retry_after == 0 then runtime.retry_after else some state.retry_after;
    last_error = if is_nil state.last_error then runtime.last_error else state.last_error;
  }
]

-- What the deferred function asks of an error: which of the sentinels it wraps, and its text.
pub record StartError : Type 0 where
  pub pressure_blocked : Bool
  pub killed : Bool
  pub context_cancelled : Bool
  pub message : Text

unfoldable pub is_startup_interrupt : StartError → Bool
is_startup_interrupt err = err.killed || err.context_cancelled

-- What the end of a start does to the failures of the instance; `none` is a start that succeeds.
unfoldable pub settle : Text → Time → Option StartError → StartFailures → StartFailures × Bool
unfolding reset_start_failures record_start_failure is_startup_interrupt
settle id now none m = reset_start_failures id m
settle id now (some err) m =
    if err.pressure_blocked || is_startup_interrupt err
    then (m, false)
    else if not err.context_cancelled
    then record_start_failure id err.message now m
    else (m, false)
