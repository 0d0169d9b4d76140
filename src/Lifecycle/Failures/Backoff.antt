-- ===== src/Lifecycle/Failures/Backoff.antt =====
-- backend/internal/lifecycle/start_failure.go: how long an instance backs off.
use llama_rack.Base.{
  ℕ, zero, suc, ◌+◌, ◌^◌, ◌≤◌, ◌<◌, ◌≡◌, refl, sym, ap, ◌∙◌, inl, inr, false, Option, none, some,
  List, [], ◌∷◌, if◌then◌else◌, is_nil, length, All, arith, Bool-cases,
}
use llama_rack.Base.Int64.{Int64, add64, sub64, le64}
use llama_rack.Base.Text.{Text}
use llama_rack.Base.Maps.{lookup, lookup_or, lookup-put_self}
use llama_rack.Lifecycle.Failures.{
  Time, seconds, StartFailureState, StartFailures, no_failures, nth, schedule,
  start_failure_backoff_for_count, failed_again, record_start_failure,
}

-- The delay after so many failures in a row, in seconds.
abbrev pub delay_after : ℕ → ℕ
delay_after zero = 15
delay_after (suc zero) = 15
delay_after (suc (suc zero)) = 30
delay_after (suc (suc (suc zero))) = 60
delay_after (suc (suc (suc (suc zero)))) = 120
delay_after (suc (suc (suc (suc (suc n))))) = 300

pub backoff-delay_after :
    (n : ℕ) → n < 2 ^ 63 → start_failure_backoff_for_count n ≡ seconds (delay_after n)
unfolding start_failure_backoff_for_count nth
backoff-delay_after zero h = refl
backoff-delay_after (suc zero) h = refl
backoff-delay_after (suc (suc zero)) h = refl
backoff-delay_after (suc (suc (suc zero))) h = refl
backoff-delay_after (suc (suc (suc (suc zero)))) h = refl
backoff-delay_after (suc (suc (suc (suc (suc n))))) h =
    let positive : le64 (suc (suc (suc (suc (suc n))))) 0 ≡ false = ground arith in
    let below : sub64 (suc (suc (suc (suc (suc n))))) 1 ≡ suc (suc (suc (suc n))) = omega arith in
    elim (Bool-cases (le64 5 (suc (suc (suc (suc n)))))) [
      | inl e ↦ rw (positive, below, e) refl
      | inr e ↦ rw (positive, below, e) (last n e)
    ]
  where
    last :
        (n : ℕ)
        → le64 5 (suc (suc (suc (suc n)))) ≡ false
        → nth n (seconds 120) (seconds 300 ∷ []) ≡ seconds 300
    last zero e = refl
    last (suc n) e = refl

abbrev InRange : ℕ → Type 0
InRange d = (seconds 15 ≤ d) × (d ≤ seconds 300)

nth-InRange : (i d : ℕ) (xs : List ℕ) → InRange d → All InRange xs → InRange (nth i d xs)
unfolding nth
nth-InRange i d [] h hs = h
nth-InRange zero d (x ∷ xs) h hs = hs.0
nth-InRange (suc i) d (x ∷ xs) h hs = nth-InRange i x xs hs.0 hs.1

nth-schedule : (i : ℕ) → InRange (nth i 0 schedule)
unfolding nth
nth-schedule zero = (omega arith, omega arith)
nth-schedule (suc i) =
    nth-InRange i (seconds 15) (seconds 30 ∷ seconds 60 ∷ seconds 120 ∷ seconds 300 ∷ [])
      (omega arith, omega arith)
      (
        (omega arith, omega arith),
        (
          (omega arith, omega arith),
          ((omega arith, omega arith), ((omega arith, omega arith), tt)),
        ),
      )

-- However the failures are counted, an overflow included, a back-off takes 15 s to 5 min.
pub backoff-bounds :
    (failures : Int64)
    → (seconds 15 ≤ start_failure_backoff_for_count failures)
      × (start_failure_backoff_for_count failures ≤ seconds 300)
unfolding start_failure_backoff_for_count
backoff-bounds failures =
    let index = sub64 failures 1 in
    elim (Bool-cases (le64 failures 0)) [
      | inl e ↦ rw e (nth-schedule 0)
      | inr e ↦ rw e (nth-schedule (if le64 5 index then 4 else index))
    ]

-- The failures of an instance, one after the other.
abbrev pub record_all : Text → List (Text × Time) → StartFailures → StartFailures
record_all id [] m = m
record_all id ((error, now) ∷ rest) m = record_all id rest (record_start_failure id error now m).0

lookup-record :
    (id error : Text) (now : Time) (m : StartFailures)
    → is_nil id ≡ false
    → lookup id (record_start_failure id error now m).0
      ≡ some (failed_again error now (lookup_or no_failures id m))
unfolding record_start_failure
lookup-record id error now m named = rw (named, lookup-put_self) refl

-- What the record says after `n` failures, of which the last has this text and time.
abbrev pub failed_state : ℕ → Text → Time → StartFailureState
failed_state n error now = record {
  consecutive_failures = n;
  last_failure_at = now;
  last_error = error;
  retry_after = now + seconds (delay_after n);
}

failed_again-state :
    (error : Text) (now n : ℕ) (state : StartFailureState)
    → state.consecutive_failures ≡ n
    → n + 1 < 2 ^ 63
    → failed_again error now state ≡ failed_state (suc n) error now
failed_again-state error now n state count small =
    let next : add64 n 1 ≡ suc n = omega arith in
    rw (count, next, backoff-delay_after (suc n) (omega arith)) refl

abbrev or_none : Option StartFailureState → StartFailureState
or_none o = elim o [ none ↦ no_failures | some v ↦ v ]

record_all-counts :
    (id : Text) (n : ℕ) (rest : List (Text × Time)) (error : Text) (now : Time) (m : StartFailures)
    → is_nil id ≡ false
    → (lookup_or no_failures id m).consecutive_failures ≡ n
    → n + length rest + 1 < 2 ^ 63
    → lookup id (record_start_failure id error now (record_all id rest m)).0
      ≡ some (failed_state (suc (n + length rest)) error now)
record_all-counts id n [] error now m named count small =
    let none_more : n + 0 ≡ n = omega arith in
    lookup-record id error now m named
    ∙ ap some (
        failed_again-state error now (n + 0) (lookup_or no_failures id m) (count ∙ sym none_more)
          (omega arith))
record_all-counts id n ((e, t) ∷ rest) error now m named count small =
    let once = lookup-record id e t m named in
    let m' = (record_start_failure id e t m).0 in
    let step : (lookup_or no_failures id m').consecutive_failures ≡ suc n =
      found_count once
      ∙ ap (λ k. k.consecutive_failures)
          (failed_again-state e t n (lookup_or no_failures id m) count (omega arith)) in
    let same : suc (suc n + length rest) ≡ suc (n + length ((e, t) ∷ rest)) = omega arith in
    record_all-counts id (suc n) rest error now m' named step (omega arith)
    ∙ ap (λ k. some (failed_state k error now)) same
  where
    found_count :
        {o : Option StartFailureState} {state : StartFailureState}
        → o ≡ some state
        → (or_none o).consecutive_failures ≡ state.consecutive_failures
    found_count e = ap (λ o. (or_none o).consecutive_failures) e

-- An instance that fails to start n times in a row, starting from no failures, backs off after the last
-- failure for 15 s, 30 s, 60 s, 2 min and then 5 min, and its record has the count, the time and the
-- text of that failure.
pub record_all-backoff :
    (id : Text) (rest : List (Text × Time)) (error : Text) (now : Time) (m : StartFailures)
    → is_nil id ≡ false
    → lookup id m ≡ none
    → length rest + 1 < 2 ^ 63
    → lookup id (record_start_failure id error now (record_all id rest m)).0
      ≡ some (failed_state (suc (length rest)) error now)
record_all-backoff id rest error now m named missing small =
    let same : suc (0 + length rest) ≡ suc (length rest) = omega arith in
    let count = ap (λ o. (or_none o).consecutive_failures) missing in
    record_all-counts id 0 rest error now m named count (omega arith)
    ∙ ap (λ k. some (failed_state k error now)) same
