-- ===== src/Security/Login.antt =====
-- backend/internal/security/security.go: `LoginProtector`. A time is in nanoseconds from the zero
-- time, and a sum that falls before it stays there. The methods hold the mutex, so each is one step.
-- A bound on the entries that is below 0 acts as 0 does. Entries has the maps that it keeps.
pub mod Bounds
pub mod Calls
pub mod Locks
pub mod Failures
pub mod Keys
pub mod Entries
use llama_rack.Base.{
  ℕ, ◌+◌, Bool, true, false, not, Option, none, some, [], ◌∷◌, ◌++◌, map, ltb, if◌then◌else◌,
}
use llama_rack.Base.Int64.{Int64, mul64, le64}
use llama_rack.Base.Text.{Text, trim_space}
use llama_rack.Base.Maps.{lookup, lookup_or, put, delete}
use llama_rack.Security.Login.Entries.{
  Attempts, LoginAttempt, Time, add_duration, failed_once, login_address_delay_after,
  login_attempt_penalty, make_attempt_room, no_attempt, prune_addresses, prune_attempts,
  record_address_failure, second,
}

pub record LoginProtector : Type 0 where
  pub attempts : Attempts
  pub addresses : Attempts
  pub max_items : ℕ
  pub max_addresses : ℕ

abbrev pub new_login_protector : LoginProtector
new_login_protector = record {
  attempts = [];
  addresses = [];
  max_items = 4096;
  max_addresses = 1024;
}

-- What `settings` answers; `none` is an error.
pub record LoginSettings : Type 0 where
  pub protection_enabled : Option Bool
  pub failure_threshold : Option Int64
  pub lockout_seconds : Option Int64

unfoldable pub prune_locked : Time → LoginProtector → LoginProtector
unfolding prune_attempts prune_addresses
prune_locked now p = record p {
  attempts = prune_attempts now p.max_items p.attempts;
  addresses = prune_addresses now p.max_addresses p.addresses;
}

-- Whether the protection is on.
unfoldable pub is_enabled : LoginSettings → Bool
is_enabled s = elim s.protection_enabled [ none ↦ false | some enabled ↦ enabled ]

abbrev pub threshold_of : LoginSettings → Int64
threshold_of s = elim s.failure_threshold [ none ↦ 5 | some n ↦ n ]

abbrev pub lockout_of : LoginSettings → Int64
lockout_of s = elim s.lockout_seconds [ none ↦ 900 | some n ↦ n ]

-- The attempts with room for the key, or none where it is new and no room can be made.
unfoldable pub attempt_room : Text → Time → ℕ → Attempts → Option Attempts
unfolding make_attempt_room
attempt_room key now max_items attempts = elim (lookup key attempts) [
  | some attempt ↦ some attempts
  | none ↦ make_attempt_room now max_items attempts
]

-- An attempt that failed, with its lock where it has reached the threshold.
unfoldable pub punished : LoginSettings → Time → LoginAttempt → LoginAttempt × Bool
unfolding add_duration
punished s now attempt =
    let failed = failed_once now attempt in
    let until = add_duration now (mul64 (lockout_of s) second) in
    if le64 (threshold_of s) failed.failures
    then (record failed { locked_until = until }, true)
    else (failed, false)

-- unicode.ToLower, as `strings.ToLower` applies it.
module _ (lower : ℕ → ℕ) where
  unfoldable pub login_key : Text → Text → Text
  login_key username address = map lower (trim_space username) ++ (0 ∷ trim_space address)

  unfoldable pub before_attempt :
      LoginSettings → Time → Text → Text → LoginProtector → LoginProtector × (ℕ × Bool)
  unfolding login_key is_enabled prune_locked login_attempt_penalty
  before_attempt s now username address p =
      let pruned = prune_locked now p in
      let account =
        login_attempt_penalty (lookup_or no_attempt (login_key username address) pruned.attempts)
          now 2 in
      let by_address =
        login_attempt_penalty (lookup_or no_attempt (trim_space address) pruned.addresses) now
          login_address_delay_after in
      if not (is_enabled s)
      then (p, (0, false))
      else if account.1
      then (pruned, (account.0, true))
      else if ltb account.0 by_address.0
      then (pruned, (by_address.0, false))
      else (pruned, (account.0, false))

  unfoldable pub failure :
      LoginSettings → Time → Text → Text → LoginProtector → LoginProtector × Bool
  unfolding login_key is_enabled prune_locked record_address_failure attempt_room punished
  failure s now username address p =
      let key = login_key username address in
      let pruned = prune_locked now p in
      let counted : LoginProtector = record pruned {
        addresses =
            record_address_failure (trim_space address) p.max_addresses now pruned.addresses;
      } in
      if not (is_enabled s)
      then (p, false)
      else elim (attempt_room key now p.max_items counted.attempts) [
        | none ↦ (counted, false)
        | some room ↦
            let (attempt, locked) = punished s now (lookup_or no_attempt key room) in
            (record counted { attempts = put key attempt room }, locked)
      ]

  unfoldable pub success : Text → Text → LoginProtector → LoginProtector
  unfolding login_key
  success username address p = record p {
    attempts = delete (login_key username address) p.attempts;
  }
