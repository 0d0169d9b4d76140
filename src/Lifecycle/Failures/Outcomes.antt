-- ===== src/Lifecycle/Failures/Outcomes.antt =====
-- backend/internal/lifecycle/start_failure.go and service.go: what ends a back-off.
use llama_rack.Base.{
  ℕ, ◌+◌, ◌≤◌, ◌≡◌, refl, inl, inr, true, false, ◌||◌, Option, none, some, [], if◌then◌else◌,
  is_nil, arith, Option-cases,
}
use llama_rack.Base.Int64.{add64}
use llama_rack.Base.Text.{Text}
use llama_rack.Base.Maps.{
  lookup, lookup_or, lookup-put, lookup-delete, lookup-put_self, lookup-delete_self,
}
use llama_rack.Lifecycle.Failures.{
  Time, seconds, StartFailureState, StartFailures, no_failures, in_start_backoff, failed_again,
  record_start_failure, override_start_backoff, reset_start_failures, StartError, settle,
  is_startup_interrupt,
}
use llama_rack.Lifecycle.Failures.Backoff.{backoff-bounds}

-- A call at a time: the end of a start, an explicit start, or the line in the log of a worker that got
-- ready.
pub data Call : Type 0 where
  settles : Text → Option StartError → Call
  overrides : Text → Call
  resets : Text → Call

abbrev pub answer : Time → Call → StartFailures → StartFailures
answer now (settles id outcome) m = (settle id now outcome m).0
answer now (overrides id) m = (override_start_backoff id m).0
answer now (resets id) m = (reset_start_failures id m).0

-- What calls at the times up to `now` can leave.
pub data Reach : Time → StartFailures → Type 0 where
  start : Reach 0 []
  waits : {now : Time} {m : StartFailures} → Reach now m → (later : ℕ) → Reach (now + later) m
  next : {now : Time} {m : StartFailures} → Reach now m → (c : Call) → Reach now (answer now c m)

-- No back-off ends later than five minutes from now.
abbrev pub Ends : Time → StartFailures → Type 0
Ends now m =
    (id : Text) (state : StartFailureState)
    → lookup id m ≡ some state
    → state.retry_after ≤ now + seconds 300

record-Ends :
    (id error : Text) (now : Time) (m : StartFailures)
    → Ends now m
    → Ends now (record_start_failure id error now m).0
unfolding record_start_failure
record-Ends id error now m ends j state h =
    let state' = failed_again error now (lookup_or no_failures id m) in
    let bound = backoff-bounds (add64 (lookup_or no_failures id m).consecutive_failures 1) in
    ground (arith, h, lookup-put id j state' m, ends j state, bound.1)

override-Ends :
    (id : Text) (now : Time) (m : StartFailures)
    → Ends now m
    → Ends now (override_start_backoff id m).0
unfolding override_start_backoff
override-Ends id now m ends j state h = elim (Option-cases (lookup id m)) [
  | inl missing ↦ ground (arith, h, missing, ends j state)
  | inr (old, found) ↦
      ground (arith, h, found, lookup-put id j (record old { retry_after = 0 }) m, ends j state)
]

reset-Ends :
    (id : Text) (now : Time) (m : StartFailures)
    → Ends now m
    → Ends now (reset_start_failures id m).0
unfolding reset_start_failures
reset-Ends id now m ends j state h = ground (arith, h, lookup-delete id j m, ends j state)

answer-Ends : (now : Time) (c : Call) (m : StartFailures) → Ends now m → Ends now (answer now c m)
unfolding settle
answer-Ends now (settles id none) m ends = reset-Ends id now m ends
answer-Ends now (settles id (some err)) m ends =
    ground (arith, ends, record-Ends id err.message now m ends)
answer-Ends now (overrides id) m ends = override-Ends id now m ends
answer-Ends now (resets id) m ends = reset-Ends id now m ends

Reach-Ends : {now : Time} {m : StartFailures} → Reach now m → Ends now m
unfolding lookup
Reach-Ends start = λ id state h. ground (arith, h)
Reach-Ends (waits {now = now} {m = m} r later) =
    λ id state h. omega (arith, Reach-Ends r id state h)
Reach-Ends (next {now = now} {m = m} r c) = answer-Ends now c m (Reach-Ends r)

-- Every back-off ends: whatever has happened to an instance until now, in five minutes from now it may
-- be started again, if nothing else happens to it.
pub Reach-backoff_ends :
    {now : Time} {m : StartFailures} (id : Text) (later : Time)
    → Reach now m
    → now + seconds 300 ≤ later
    → in_start_backoff id later m ≡ false
unfolding in_start_backoff
Reach-backoff_ends {now = now} {m = m} id later r long = elim (Option-cases (lookup id m)) [
  | inl missing ↦ rw (in_start_backoff, missing) refl
  | inr (state, found) ↦
      let bound = Reach-Ends r id state found in
      rw (in_start_backoff, found) (ground (arith, bound, long))
]

record-in_start_backoff :
    (id error : Text) (now : Time) (m : StartFailures)
    → is_nil id ≡ false
    → in_start_backoff id now (record_start_failure id error now m).0 ≡ true
unfolding record_start_failure in_start_backoff
record-in_start_backoff id error now m named =
    let bound = backoff-bounds (add64 (lookup_or no_failures id m).consecutive_failures 1) in
    rw (named, in_start_backoff, lookup-put_self) (ground (arith, bound.0))

reset-in_start_backoff :
    (id : Text) (now : Time) (m : StartFailures)
    → is_nil id ≡ false
    → in_start_backoff id now (reset_start_failures id m).0 ≡ false
unfolding reset_start_failures in_start_backoff
reset-in_start_backoff id now m named = elim (Option-cases (lookup id m)) [
  | inl missing ↦ rw (reset_start_failures, missing, in_start_backoff, missing) refl
  | inr (state, found) ↦
      rw (reset_start_failures, found, named, in_start_backoff, lookup-delete_self) refl
]

-- A start that succeeds ends the back-off of its instance, one that memory pressure, a kill or a
-- cancelled context stopped leaves it as it was, and any other failed start begins one.
pub settle-backoff :
    (id : Text) (now : Time) (outcome : Option StartError) (m : StartFailures)
    → is_nil id ≡ false
    → in_start_backoff id now (settle id now outcome m).0 ≡ elim outcome [
      | none ↦ false
      | some err ↦
          if err.pressure_blocked || (err.killed || err.context_cancelled)
          then in_start_backoff id now m
          else true
    ]
unfolding settle is_startup_interrupt
settle-backoff id now none m named = reset-in_start_backoff id now m named
settle-backoff id now (some err) m named =
    ground (arith, record-in_start_backoff id err.message now m named)
