-- ===== src/Security/Login/Entries.antt =====
-- backend/internal/security/security.go: the entries of `LoginProtector`, their delays, and what
-- becomes of them when there are too many. Go visits a map in any order, the model in the order of
-- its list.
use llama_rack.Base.{
  ℕ, zero, suc, ◌+◌, ◌-◌, ◌*◌, ◌^◌, Bool, true, false, ◌&&◌, ◌||◌, not, Option, none, some, [], ◌∷◌,
  ltb, leb, ◌==◌, if◌then◌else◌, length, is_nil, keep,
}
use llama_rack.Base.Int64.{Int64, add64, sub64, lt64}
use llama_rack.Base.Text.{Text}
use llama_rack.Base.Maps.{Map, lookup, lookup_or, put, delete}

abbrev pub Time : Type 0
Time = ℕ

abbrev pub second : ℕ
second = 1_000_000_000

-- time.Add of a duration of either sign.
unfoldable pub add_duration : Time → Int64 → Time
add_duration t d = if ltb d (2 ^ 63) then t + d else t - (2 ^ 64 - d)

-- time.Sub of an earlier time, at most the longest duration.
unfoldable pub since : Time → Time → ℕ
since later earlier = if ltb (2 ^ 63 - 1) (later - earlier) then 2 ^ 63 - 1 else later - earlier

pub record LoginAttempt : Type 0 where
  pub failures : Int64
  pub updated_at : Time
  pub locked_until : Time

abbrev pub no_attempt : LoginAttempt
no_attempt = record { failures = 0; updated_at = 0; locked_until = 0 }

abbrev pub Attempts : Type 0
Attempts = Map LoginAttempt

abbrev pub login_address_delay_after : Int64
login_address_delay_after = 8

abbrev pub login_address_ttl : ℕ
login_address_ttl = 600 * second

abbrev pub is_locked : Time → LoginAttempt → Bool
is_locked now attempt = ltb now attempt.locked_until

-- 100 ms, doubled for each failure past the first ones, four times at most.
abbrev pub delay_of : ℕ → ℕ
delay_of shift = 100_000_000 * 2 ^ (if lt64 4 shift then 4 else shift)

-- The delay, and whether the entry is locked.
unfoldable pub login_attempt_penalty : LoginAttempt → Time → Int64 → ℕ × Bool
unfolding since
login_attempt_penalty attempt now delay_after =
    if is_locked now attempt
    then (since attempt.locked_until now, true)
    else if lt64 attempt.failures delay_after
    then (0, false)
    else (delay_of (sub64 attempt.failures delay_after), false)

-- The key of the oldest entry that may go, with its time; no key is the empty one.
unfoldable pub oldest_of : (LoginAttempt → Bool) → Attempts → Text → Time → Text
oldest_of skipped [] key oldest = key
oldest_of skipped ((k, attempt) ∷ attempts) key oldest =
    if skipped attempt
    then oldest_of skipped attempts key oldest
    else if is_nil key || ltb attempt.updated_at oldest
    then oldest_of skipped attempts k attempt.updated_at
    else oldest_of skipped attempts key oldest

-- The entries without the oldest one, where one may go.
unfoldable pub without_oldest : (LoginAttempt → Bool) → Attempts → Option Attempts
unfolding oldest_of
without_oldest skipped attempts =
    let key = oldest_of skipped attempts [] 0 in
    if is_nil key then none else some (delete key attempts)

unfoldable pub make_attempt_room : Time → ℕ → Attempts → Option Attempts
unfolding without_oldest
make_attempt_room now max_items attempts =
    if max_items == 0
    then none
    else if ltb (length attempts) max_items
    then some attempts
    else without_oldest (is_locked now) attempts

-- Whether an address is delayed now.
abbrev pub is_delayed : Time → LoginAttempt → Bool
is_delayed now attempt = ltb 0 (login_attempt_penalty attempt now login_address_delay_after).0

unfoldable pub evict_oldest_address : Time → Attempts → Option Attempts
unfolding without_oldest
evict_oldest_address now addresses = without_oldest (is_delayed now) addresses

abbrev pub failed_once : Time → LoginAttempt → LoginAttempt
failed_once now attempt = record attempt { failures = add64 attempt.failures 1; updated_at = now }

-- The entries with room for one more key, or none.
unfoldable pub address_room : Text → ℕ → Time → Attempts → Option Attempts
unfolding evict_oldest_address
address_room address max_addresses now addresses = elim (lookup address addresses) [
  | some attempt ↦ some addresses
  | none ↦
      if leb max_addresses (length addresses)
      then evict_oldest_address now addresses
      else some addresses
]

unfoldable pub record_address_failure : Text → ℕ → Time → Attempts → Attempts
unfolding address_room
record_address_failure address max_addresses now addresses =
    if is_nil address || max_addresses == 0
    then addresses
    else elim (address_room address max_addresses now addresses) [
      | none ↦ addresses
      | some room ↦ put address (failed_once now (lookup_or no_attempt address room)) room
    ]

-- An entry that is a day old and not locked.
abbrev pub is_stale : Time → LoginAttempt → Bool
is_stale now attempt =
    ltb (24 * 3600 * second) (now - attempt.updated_at) && not (is_locked now attempt)

-- sort.Slice by `UpdatedAt`; Go leaves the order of equal times open.
unfoldable pub insert_by_age : Text × LoginAttempt → Attempts → Attempts
insert_by_age e [] = e ∷ []
insert_by_age e (f ∷ attempts) =
    if ltb f.1.updated_at e.1.updated_at then f ∷ insert_by_age e attempts else e ∷ f ∷ attempts

unfoldable pub sort_by_age : Attempts → Attempts
unfolding insert_by_age
sort_by_age [] = []
sort_by_age (e ∷ attempts) = insert_by_age e (sort_by_age attempts)

-- The entries without those of the first `n` keys of the list.
unfoldable pub delete_first : ℕ → Attempts → Attempts → Attempts
delete_first zero items attempts = attempts
delete_first (suc n) [] attempts = attempts
delete_first (suc n) ((k, a) ∷ items) attempts = delete_first n items (delete k attempts)

unfoldable pub prune_attempts : Time → ℕ → Attempts → Attempts
unfolding sort_by_age delete_first
prune_attempts now max_items attempts =
    let fresh = keep (λ e. not (is_stale now e.1)) attempts in
    if ltb max_items (length fresh)
    then delete_first (length fresh - max_items)
        (sort_by_age (keep (λ e. not (is_locked now e.1)) fresh)) fresh
    else fresh

-- The loop that evicts addresses; each round drops an entry, so their number is fuel enough.
unfoldable pub evict_addresses : ℕ → ℕ → Time → Attempts → Attempts
unfolding evict_oldest_address
evict_addresses zero max_addresses now addresses = addresses
evict_addresses (suc fuel) max_addresses now addresses =
    if ltb max_addresses (length addresses)
    then elim (evict_oldest_address now addresses) [
      | none ↦ addresses
      | some rest ↦ evict_addresses fuel max_addresses now rest
    ]
    else addresses

unfoldable pub prune_addresses : Time → ℕ → Attempts → Attempts
unfolding evict_addresses
prune_addresses now max_addresses addresses =
    let fresh = keep (λ e. not (ltb login_address_ttl (now - e.1.updated_at))) addresses in
    evict_addresses (length fresh) max_addresses now fresh
