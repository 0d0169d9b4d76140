-- ===== src/Security/Login/Failures.antt =====
-- backend/internal/security/security.go: failures in a row lock an account, and how long a check
-- delays.
use llama_rack.Base.{
  ℕ, zero, suc, ◌+◌, ◌-◌, ◌*◌, ◌^◌, ◌≤◌, ◌<◌, ◌≡◌, refl, sym, ap, subst, ◌∙◌, inl, inr, true, false,
  not, none, some, List, [], ◌∷◌, arith, ltb, if◌then◌else◌, length, keep, Bool-cases,
}
use llama_rack.Base.Int64.{add64, sub64, lt64, lt64-nonneg}
use llama_rack.Base.Text.{Text}
use llama_rack.Base.Maps.{lookup, lookup_or, lookup-put_self}
use llama_rack.Base.Entries.{lookup-keep, length-keep}
use llama_rack.Security.Login.{
  LoginProtector, LoginSettings, attempt_room, punished, login_key, failure, is_enabled,
  threshold_of, lockout_of, before_attempt,
}
use llama_rack.Security.Login.Entries.{
  LoginAttempt, Attempts, no_attempt, second, add_duration, since, prune_attempts, is_stale,
  is_locked, login_attempt_penalty, delay_of,
}
use llama_rack.Security.Login.Locks.{before_attempt-locked}
use llama_rack.Security.Login.Calls.{IsWithin, answer-IsWithin, fails}

abbrev pub day : ℕ
day = 24 * 3600 * second

-- An account that is not a day old outlives the pruning, since there is no overflow.
prune_attempts-found :
    (now max : ℕ) (k : Text) (m : Attempts) {a : LoginAttempt}
    → length m ≤ max
    → lookup k m ≡ some a
    → now - a.updated_at ≤ day
    → lookup k (prune_attempts now max m) ≡ some a
unfolding prune_attempts
prune_attempts-found now max k m {a = a} few h young =
    let fresh : not (is_stale now a) ≡ true = ground (arith, young) in
    let fits : ltb max (length (keep (λ e. not (is_stale now e.1)) m)) ≡ false =
      ground (arith, length-keep (λ e. not (is_stale now e.1)) m, few) in
    rw fits (lookup-keep (λ e. not (is_stale now e.1)) k m h fresh)

attempt_room-known :
    (key : Text) (now n : ℕ) (m : Attempts) {a : LoginAttempt}
    → lookup key m ≡ some a
    → attempt_room key now n m ≡ some m
unfolding attempt_room
attempt_room-known key now n m h = rw (attempt_room, h) refl

failures-punished :
    (s : LoginSettings) (now : ℕ) (a : LoginAttempt)
    → ((punished s now a).0.failures ≡ add64 a.failures 1) × ((punished s now a).0.updated_at ≡ now)
unfolding punished
failures-punished s now a = ground arith

threshold-punished :
    (s : LoginSettings) (now : ℕ) (a : LoginAttempt)
    → a.failures + 1 < 2 ^ 63
    → threshold_of s ≤ a.failures + 1
    → (punished s now a).1 ≡ true
unfolding punished
threshold-punished s now a small reached = ground arith

locked_until-punished :
    (s : LoginSettings) (now : ℕ) (a : LoginAttempt)
    → a.failures + 1 < 2 ^ 63
    → threshold_of s ≤ a.failures + 1
    → lockout_of s * second < 2 ^ 63
    → (punished s now a).0.locked_until ≡ now + lockout_of s * second
unfolding punished add_duration
locked_until-punished s now a small reached short = ground arith

module _ (lower : ℕ → ℕ) (s : LoginSettings) (username address : Text) where
  abbrev pub key_of : Text
  key_of = login_key lower username address

  -- A failure of a known account.
  failure-known :
      (now : ℕ) (p : LoginProtector) (a : LoginAttempt)
      → IsWithin p
      → is_enabled s ≡ true
      → lookup key_of p.attempts ≡ some a
      → now - a.updated_at ≤ day
      → (lookup key_of (failure lower s now username address p).0.attempts
          ≡ some (punished s now a).0)
        × ((failure lower s now username address p).1 ≡ (punished s now a).1)
  unfolding failure
  failure-known now p a w on h young =
      let m = prune_attempts now p.max_items p.attempts in
      let pruned =
        prune_attempts-found now p.max_items key_of p.attempts {a = a} w.attempts.few h young in
      let room = attempt_room-known key_of now p.max_items m pruned in
      let known : punished s now (lookup_or no_attempt key_of m) ≡ punished s now a =
        ap (λ o. punished s now (elim o [ none ↦ no_attempt | some b ↦ b ])) pruned in
      rw (on, room, known) (lookup-put_self key_of (punished s now a).0 m, refl)

  -- The account fails at each of these times.
  abbrev pub fail_all : List ℕ → LoginProtector → LoginProtector
  fail_all [] p = p
  fail_all (now ∷ times) p = fail_all times (failure lower s now username address p).0

  -- Each time is within a day of the one before.
  abbrev pub Close : ℕ → List ℕ → ℕ → Type 0
  Close t [] last = last - t ≤ day
  Close t (now ∷ times) last = (now - t ≤ day) × Close now times last

  fail_all-counts :
      (times : List ℕ) (last : ℕ) (p : LoginProtector) (a : LoginAttempt)
      → IsWithin p
      → is_enabled s ≡ true
      → lookup key_of p.attempts ≡ some a
      → Close a.updated_at times last
      → a.failures + length times < 2 ^ 63
      → IsWithin (fail_all times p)
        × (b : LoginAttempt) × (lookup key_of (fail_all times p).attempts ≡ some b)
        × (b.failures ≡ a.failures + length times)
        × (last - b.updated_at ≤ day)
  fail_all-counts [] last p a w on h close small = (w, a, h, omega arith, close)
  fail_all-counts (now ∷ times) last p a w on h (young, close) small =
      let (found, _) = failure-known now p a w on h young in
      let (count, at) = failures-punished s now a in
      let (w', b, there, total, late) =
        fail_all-counts times last (failure lower s now username address p).0 (punished s now a).0
          (answer-IsWithin lower (fails s now username address) p w) on found
          (subst (λ t. Close t times last) (sym at) close) (omega (arith, count, small)) in
      (w', b, there, omega (arith, total, count, small), late)

  -- Failures in a row lock an account: when an account with a failure fails again and again, each time
  -- within a day of the one before, the failure that brings the count to the threshold answers that
  -- the account is locked, and every check within the lockout time after it answers the same, with
  -- the rest of that time.
  pub failure-locks :
      (times : List ℕ) (last later : ℕ) (p : LoginProtector) (a : LoginAttempt)
      → IsWithin p
      → s.protection_enabled ≡ some true
      → lookup key_of p.attempts ≡ some a
      → Close a.updated_at times last
      → threshold_of s ≡ a.failures + length times + 1
      → a.failures + length times + 1 < 2 ^ 63
      → lockout_of s * second < 2 ^ 63
      → later < last + lockout_of s * second
      → let (q, locked) = failure lower s last username address (fail_all times p) in
        (locked ≡ true)
        × ((before_attempt lower s later username address q).1
            ≡ (since (last + lockout_of s * second) later, true))
  unfolding is_enabled
  failure-locks times last later p a w enabled h close reached small short soon =
      let on : is_enabled s ≡ true = rw enabled refl in
      let (w', b, there, total, late) = fail_all-counts times last p a w on h close (omega arith) in
      let q = (failure lower s last username address (fail_all times p)).0 in
      let few : b.failures + 1 < 2 ^ 63 = omega (arith, total, small) in
      let many : threshold_of s ≤ b.failures + 1 = omega (arith, total, reached) in
      let (found, answered) = failure-known last (fail_all times p) b w' on there late in
      let until = locked_until-punished s last b few many short in
      (
        answered ∙ threshold-punished s last b few many,
        before_attempt-locked lower [] s later username address q (punished s last b).0
              (answer-IsWithin lower (fails s last username address) (fail_all times p) w') found tt
              enabled (omega (arith, until, soon))
            ∙ ap (λ t. (since t later, true)) until,
      )

-- 100 ms, doubled for each of the first four failures past the first.
abbrev pub doubled : ℕ → ℕ
doubled zero = 100
doubled (suc zero) = 200
doubled (suc (suc zero)) = 400
doubled (suc (suc (suc zero))) = 800
doubled (suc (suc (suc (suc n)))) = 1600

delay_of-doubled : (n : ℕ) → n < 2 ^ 63 → delay_of n ≡ 1_000_000 * doubled n
delay_of-doubled zero h = refl
delay_of-doubled (suc zero) h = refl
delay_of-doubled (suc (suc zero)) h = refl
delay_of-doubled (suc (suc (suc zero))) h = refl
delay_of-doubled (suc (suc (suc (suc n)))) h = ap (λ shift. 100_000_000 * 2 ^ shift) (capped n h)
  where
    capped :
        (n : ℕ)
        → suc (suc (suc (suc n))) < 2 ^ 63
        → (if lt64 4 (suc (suc (suc (suc n)))) then 4 else suc (suc (suc (suc n)))) ≡ 4
    capped n h = ground arith

-- The delay of an entry that is not locked is none below `delay_after` failures and else 100 ms, doubled
-- with each further failure up to 1.6 s, for counts that have not overflowed.
pub login_attempt_penalty-doubled :
    (a : LoginAttempt) (now delay_after : ℕ)
    → is_locked now a ≡ false
    → a.failures < 2 ^ 63
    → delay_after < 2 ^ 63
    → login_attempt_penalty a now delay_after ≡ (
      (if ltb a.failures delay_after then 0 else 1_000_000 * doubled (a.failures - delay_after)),
      false,
    )
unfolding login_attempt_penalty
login_attempt_penalty-doubled a now delay_after l few small =
    let below = lt64-nonneg a.failures delay_after few small in
    elim (Bool-cases (ltb a.failures delay_after)) [
      | inl e ↦ rw (l, below, e) refl
      | inr e ↦
          let above : delay_after ≤ a.failures = ground (arith, e) in
          let less : sub64 a.failures delay_after ≡ a.failures - delay_after = omega arith in
          rw (l, below, e, less)
            (ap (λ d. (d, false))
              (delay_of-doubled (a.failures - delay_after) (omega (arith, few))))
    ]
