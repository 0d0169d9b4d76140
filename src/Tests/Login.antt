-- ===== src/Tests/Login.antt =====
-- Logins of two people from one address.
use llama_rack.Base.{
  ◌+◌, ◌*◌, ◌≤◌, ◌≡◌, ◌↔◌, refl, true, false, none, some, [], ◌∷◌, arith, length, map, All, ◌≢◌,
}
use llama_rack.Base.Text.{Text, codes, to_lower_rune, trim_space}
use llama_rack.Base.Maps.{Distinct, lookup}
use llama_rack.Security.Login.{
  LoginProtector, LoginSettings, new_login_protector, login_key, before_attempt, failure,
}
use llama_rack.Security.Login.Entries.{LoginAttempt, second, since, login_attempt_penalty}
use llama_rack.Security.Login.Calls.{
  IsWithin, Call, fails, succeeds, here, next, answer, Reach-bounds,
}
use llama_rack.Security.Login.Locks.{answers, before_attempt-locked}
use llama_rack.Security.Login.Failures.{fail_all, failure-locks, login_attempt_penalty-doubled}
use llama_rack.Security.Login.Keys.{login_key_iff}

abbrev settings : LoginSettings
settings = record {
  protection_enabled = some true;
  failure_threshold = none;
  lockout_seconds = some 60;
}

abbrev bob : Text
bob = codes " Bob"

abbrev eve : Text
eve = codes "eve"

abbrev address : Text
address = codes "::1"

abbrev eve_fails : Call to_lower_rune
eve_fails = fails settings (5 * second) eve address

abbrev after_calls : LoginProtector
after_calls =
    answer to_lower_rune (succeeds bob address) (answer to_lower_rune eve_fails new_login_protector)

Reach-bounds_example :
    (Distinct after_calls.attempts × (length after_calls.attempts ≤ 4096))
    × (Distinct after_calls.addresses × (length after_calls.addresses ≤ 1024))
Reach-bounds_example =
    Reach-bounds to_lower_rune (next (next here eve_fails) (succeeds bob address))

-- Bob has failed three times, or is locked.
abbrev known : LoginAttempt → LoginProtector
known attempt = record new_login_protector {
  attempts = (login_key to_lower_rune bob address, attempt) ∷ [];
}

known-IsWithin : (attempt : LoginAttempt) → IsWithin (known attempt)
unfolding lookup
known-IsWithin attempt = record {
  attempts = record { distinct = (refl, tt); few = omega arith };
  addresses = record { distinct = tt; few = omega arith };
}

abbrev locked_bob : LoginAttempt
locked_bob = record { failures = 5; updated_at = second; locked_until = 60 * second }

before_attempt-locked_example :
    (before_attempt to_lower_rune settings
      (6 * second)
      bob
      address
      (answers to_lower_rune (eve_fails ∷ []) (known locked_bob))).1
    ≡ (since (60 * second) (6 * second), true)
unfolding lookup llama_rack.Base.Text.text_eq login_key trim_space to_lower_rune
before_attempt-locked_example =
    before_attempt-locked to_lower_rune (eve_fails ∷ []) settings (6 * second) bob address
      (known locked_bob) locked_bob (known-IsWithin locked_bob) refl ((refl, omega arith), tt) refl
      (omega arith)

abbrev failing_bob : LoginAttempt
failing_bob = record { failures = 3; updated_at = second; locked_until = 0 }

failure-locks_example :
    let (q, locked) =
      failure to_lower_rune settings
        (9 * second)
        bob
        address
        (fail_all to_lower_rune settings bob address (3 * second ∷ []) (known failing_bob)) in
    (locked ≡ true)
    × ((before_attempt to_lower_rune settings (20 * second) bob address q).1
        ≡ (since (9 * second + 60 * second) (20 * second), true))
unfolding llama_rack.Security.Login.is_enabled lookup llama_rack.Base.Text.text_eq login_key
    trim_space to_lower_rune
failure-locks_example =
    failure-locks to_lower_rune settings bob address (3 * second ∷ []) (9 * second) (20 * second)
      (known failing_bob) failing_bob (known-IsWithin failing_bob) refl refl
      (omega arith, omega arith) (omega arith) (omega arith) (omega arith) (omega arith)

login_attempt_penalty_example : login_attempt_penalty failing_bob second 2 ≡ (200_000_000, false)
login_attempt_penalty_example =
    login_attempt_penalty-doubled failing_bob second 2 refl (omega arith) (omega arith)

no_zero : All (λ c. c ≢ 0) (trim_space address)
unfolding trim_space llama_rack.Base.Text.drop_while llama_rack.Base.Text.is_space
no_zero = ((λ e. ground (arith, e)), ((λ e. ground (arith, e)), ((λ e. ground (arith, e)), tt)))

login_key_example :
    (login_key to_lower_rune bob address ≡ login_key to_lower_rune (codes "bOB ") address) ↔ (
      (map to_lower_rune (trim_space bob) ≡ map to_lower_rune (trim_space (codes "bOB ")))
      × (trim_space address ≡ trim_space address))
login_key_example = login_key_iff to_lower_rune bob (codes "bOB ") address address no_zero no_zero
