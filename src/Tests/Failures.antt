-- ===== src/Tests/Failures.antt =====
-- An instance that fails to start twice.
use llama_rack.Base.{◌+◌, ◌≡◌, refl, true, false, some, [], ◌∷◌, arith}
use llama_rack.Base.Text.{Text, codes}
use llama_rack.Base.Maps.{lookup}
use llama_rack.Lifecycle.Failures.{
  seconds, StartFailures, StartError, record_start_failure, in_start_backoff, settle,
}
use llama_rack.Lifecycle.Failures.Backoff.{record_all, failed_state, record_all-backoff}
use llama_rack.Lifecycle.Failures.Outcomes.{
  start, waits, next, settles, answer, Reach-backoff_ends, settle-backoff,
}

abbrev id : Text
id = codes "a"

abbrev oom : Text
oom = codes "out of memory"

record_all-backoff_example :
    lookup id
      (record_start_failure id oom (seconds 40) (record_all id ((oom, seconds 5) ∷ []) [])).0
    ≡ some (failed_state 2 oom (seconds 40))
unfolding lookup
record_all-backoff_example =
    record_all-backoff id ((oom, seconds 5) ∷ []) oom (seconds 40) [] refl refl (omega arith)

abbrev error : StartError
error = record {
  pressure_blocked = false;
  killed = false;
  context_cancelled = false;
  message = oom;
}

abbrev after_failure : StartFailures
after_failure = answer (0 + seconds 5) (settles id (some error)) []

Reach-backoff_ends_example : in_start_backoff id (seconds 305) after_failure ≡ false
Reach-backoff_ends_example =
    Reach-backoff_ends id (seconds 305) (next (waits start (seconds 5)) (settles id (some error)))
      (omega arith)

settle-backoff_example :
    in_start_backoff id (seconds 5) (settle id (seconds 5) (some error) []).0 ≡ true
settle-backoff_example = settle-backoff id (seconds 5) (some error) [] refl
