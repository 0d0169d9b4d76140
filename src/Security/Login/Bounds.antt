-- ===== src/Security/Login/Bounds.antt =====
-- backend/internal/security/security.go: how many entries the protection of logins keeps.
use llama_rack.Base.{
  ℕ, zero, suc, ◌-◌, ◌≤◌, ◌<◌, ◌≡◌, refl, subst, ◌⊎◌, inl, inr, Bool, false, ◌||◌, not, none, some,
  [], ◌∷◌, arith, ltb, leb, ◌==◌, length, is_nil, keep, Bool-cases, Option-cases,
}
use llama_rack.Base.Text.{Text, text_eq_iff, text_eq_refl}
use llama_rack.Base.Maps.{lookup, lookup_or, put, delete, Distinct, put-Distinct, delete-Distinct}
use llama_rack.Base.Entries.{
  length-keep, length-put_new, length-put_found, length-delete, length-delete_found, keep-Distinct,
}
use llama_rack.Security.Login.{attempt_room}
use llama_rack.Security.Login.Entries.{
  Time, LoginAttempt, Attempts, no_attempt, oldest_of, without_oldest, make_attempt_room,
  evict_oldest_address, address_room, record_address_failure, sort_by_age, delete_first,
  prune_attempts, evict_addresses, prune_addresses, is_stale, login_address_ttl, is_locked,
  is_delayed, failed_once,
}

-- An entry of this key that may go.
abbrev pub MayGo : (LoginAttempt → Bool) → Text → Attempts → Type 0
MayGo skipped k m = (a : LoginAttempt) × (lookup k m ≡ some a) × (skipped a ≡ false)

lookup-first : (k : Text) (a : LoginAttempt) (m : Attempts) → lookup k ((k, a) ∷ m) ≡ some a
unfolding lookup
lookup-first k a m = rw (text_eq_refl k)

MayGo-cons :
    (skipped : LoginAttempt → Bool) (k r : Text) (a : LoginAttempt) (m : Attempts)
    → lookup k m ≡ none
    → MayGo skipped r m
    → MayGo skipped r ((k, a) ∷ m)
unfolding lookup
MayGo-cons skipped k r a m new (b, found, free) = (b, ground (arith, text_eq_iff k r), free)

-- The oldest key is the one it began with or that of an entry that may go.
oldest_of-found :
    (skipped : LoginAttempt → Bool) (m : Attempts) (key : Text) (t : Time)
    → Distinct m
    → (oldest_of skipped m key t ≡ key) ⊎ MayGo skipped (oldest_of skipped m key t) m
unfolding oldest_of
oldest_of-found skipped [] key t d = inl refl
oldest_of-found skipped ((k, a) ∷ m) key t (new, d) =
    let later : (key : Text) (t : Time)
        → (oldest_of skipped m key t ≡ key)
          ⊎ MayGo skipped (oldest_of skipped m key t) ((k, a) ∷ m) =
      λ key t. elim (oldest_of-found skipped m key t d) [
        | inl same ↦ inl same
        | inr may ↦ inr (MayGo-cons skipped k (oldest_of skipped m key t) a m new may)
      ] in
    elim (Bool-cases (skipped a)) [
      | inl e ↦ rw e (later key t)
      | inr e ↦ elim (Bool-cases (is_nil key || ltb a.updated_at t)) [
        | inr f ↦ rw (e, f) (later key t)
        | inl f ↦
            rw (e, f)
              (elim (later k a.updated_at) [
                | inl same ↦ inr (rw same (a, lookup-first k a m, e))
                | inr may ↦ inr may
              ])
      ]
    ]

-- What is left without the oldest entry.
pub without_oldest-MayGo :
    (skipped : LoginAttempt → Bool) (m m' : Attempts)
    → Distinct m
    → without_oldest skipped m ≡ some m'
    → (k : Text) × MayGo skipped k m × (m' ≡ delete k m)
unfolding without_oldest
without_oldest-MayGo skipped m m' d h = elim (oldest_of-found skipped m [] 0 d) [
  | inl same ↦ absurd (ground (arith, h, same))
  | inr may ↦ (oldest_of skipped m [] 0, may, ground (arith, h))
]

-- At most `n` entries, each key once.
pub record IsBounded (n : ℕ) (m : Attempts) : Type 0 where
  pub distinct : Distinct m
  pub few : length m ≤ n

without_oldest-IsBounded :
    (skipped : LoginAttempt → Bool) (n : ℕ) (m m' : Attempts)
    → IsBounded n m
    → without_oldest skipped m ≡ some m'
    → Distinct m' × (length m' < length m)
without_oldest-IsBounded skipped n m m' b h =
    let (k, (a, found, free), e) = without_oldest-MayGo skipped m m' b.distinct h in
    rw e (delete-Distinct k m b.distinct, length-delete_found k m found)

keep-IsBounded :
    (p : Text × LoginAttempt → Bool) (n : ℕ) (m : Attempts) → IsBounded n m → IsBounded n (keep p m)
keep-IsBounded p n m b = record {
  distinct = keep-Distinct p m b.distinct;
  few = omega (arith, length-keep p m, b.few);
}

pub delete-IsBounded : (k : Text) (n : ℕ) (m : Attempts) → IsBounded n m → IsBounded n (delete k m)
delete-IsBounded k n m b = record {
  distinct = delete-Distinct k m b.distinct;
  few = omega (arith, length-delete k m, b.few);
}

delete_first-IsBounded :
    (i n : ℕ) (items m : Attempts) → IsBounded n m → IsBounded n (delete_first i items m)
unfolding delete_first
delete_first-IsBounded zero n items m b = b
delete_first-IsBounded (suc i) n [] m b = b
delete_first-IsBounded (suc i) n ((k, a) ∷ items) m b =
    delete_first-IsBounded i n items (delete k m) (delete-IsBounded k n m b)

pub prune_attempts-IsBounded :
    (now max n : ℕ) (m : Attempts) → IsBounded n m → IsBounded n (prune_attempts now max m)
unfolding prune_attempts
prune_attempts-IsBounded now max n m b =
    let fresh = keep-IsBounded (λ e. not (is_stale now e.1)) n m b in
    ground (
      arith,
      fresh,
      delete_first-IsBounded (length (keep (λ e. not (is_stale now e.1)) m) - max) n
          (sort_by_age (keep (λ e. not (is_locked now e.1)) (keep (λ e. not (is_stale now e.1)) m)))
          (keep (λ e. not (is_stale now e.1)) m) fresh,
    )

evict_addresses-IsBounded :
    (fuel max now n : ℕ) (m : Attempts)
    → IsBounded n m
    → IsBounded n (evict_addresses fuel max now m)
unfolding evict_addresses evict_oldest_address
evict_addresses-IsBounded zero max now n m b = b
evict_addresses-IsBounded (suc fuel) max now n m b = elim (Bool-cases (ltb max (length m))) [
  | inr e ↦ rw e b
  | inl e ↦ elim (Option-cases (without_oldest (is_delayed now) m)) [
    | inl none_left ↦ rw (e, none_left) b
    | inr (rest, one_left) ↦
        let (d, less) = without_oldest-IsBounded (is_delayed now) n m rest b one_left in
        let b' : IsBounded n rest = record { distinct = d; few = omega (arith, less, b.few) } in
        rw (e, one_left) (evict_addresses-IsBounded fuel max now n rest b')
  ]
]

pub prune_addresses-IsBounded :
    (now max n : ℕ) (m : Attempts) → IsBounded n m → IsBounded n (prune_addresses now max m)
unfolding prune_addresses
prune_addresses-IsBounded now max n m b =
    let fresh = keep (λ e. not (ltb login_address_ttl (now - e.1.updated_at))) m in
    evict_addresses-IsBounded (length fresh) max now n fresh
      (keep-IsBounded (λ e. not (ltb login_address_ttl (now - e.1.updated_at))) n m b)

-- Room for an entry of this key.
pub record HasRoomFor (k : Text) (n : ℕ) (m : Attempts) : Type 0 where
  pub bounded : IsBounded n m
  pub room : lookup k m ≡ none → length m < n

pub put-IsBounded :
    (k : Text) (a : LoginAttempt) (n : ℕ) (m : Attempts)
    → HasRoomFor k n m
    → IsBounded n (put k a m)
put-IsBounded k a n m h = record {
  distinct = put-Distinct k a m h.bounded.distinct;
  few = elim (Option-cases (lookup k m)) [
    | inl new ↦ omega (arith, length-put_new k a m new, h.room new)
    | inr (b, old) ↦ omega (arith, length-put_found k a m old, h.bounded.few)
  ];
}

known-HasRoomFor :
    (k : Text) (n : ℕ) (m : Attempts) {a : LoginAttempt}
    → IsBounded n m
    → lookup k m ≡ some a
    → HasRoomFor k n m
known-HasRoomFor k n m b old = record {
  bounded = b;
  room = λ new. absurd (ground (arith, old, new));
}

-- With fewer entries than the bound there is room for any key.
fewer-HasRoomFor : (k : Text) (n : ℕ) (m : Attempts) → Distinct m → length m < n → HasRoomFor k n m
fewer-HasRoomFor k n m d less = record {
  bounded = record { distinct = d; few = omega arith };
  room = λ _. less;
}

evicted-HasRoomFor :
    (skipped : LoginAttempt → Bool) (k : Text) (n : ℕ) (m m' : Attempts)
    → IsBounded n m
    → without_oldest skipped m ≡ some m'
    → HasRoomFor k n m'
evicted-HasRoomFor skipped k n m m' b h =
    let (d, less) = without_oldest-IsBounded skipped n m m' b h in
    fewer-HasRoomFor k n m' d (omega (arith, less, b.few))

address_room-HasRoomFor :
    (address : Text) (n now : ℕ) (m m' : Attempts)
    → IsBounded n m
    → address_room address n now m ≡ some m'
    → HasRoomFor address n m'
unfolding address_room evict_oldest_address
address_room-HasRoomFor address n now m m' b h = elim (Option-cases (lookup address m)) [
  | inr (a, old) ↦
      let same : m ≡ m' = ground (arith, h, old) in
      subst (HasRoomFor address n) same (known-HasRoomFor address n m b old)
  | inl new ↦ elim (Bool-cases (leb n (length m))) [
    | inl full ↦ evicted-HasRoomFor (is_delayed now) address n m m' b (ground (arith, h, new, full))
    | inr e ↦
        let same : m ≡ m' = ground (arith, h, new, e) in
        subst (HasRoomFor address n) same
          (fewer-HasRoomFor address n m b.distinct (ground (arith, e)))
  ]
]

pub attempt_room-HasRoomFor :
    (key : Text) (now n : ℕ) (m m' : Attempts)
    → IsBounded n m
    → attempt_room key now n m ≡ some m'
    → HasRoomFor key n m'
unfolding attempt_room make_attempt_room
attempt_room-HasRoomFor key now n m m' b h = elim (Option-cases (lookup key m)) [
  | inr (a, old) ↦
      let same : m ≡ m' = ground (arith, h, old) in
      subst (HasRoomFor key n) same (known-HasRoomFor key n m b old)
  | inl new ↦ elim (Bool-cases (ltb (length m) n)) [
    | inl less ↦
        let same : m ≡ m' = ground (arith, h, new, less) in
        subst (HasRoomFor key n) same (fewer-HasRoomFor key n m b.distinct (ground (arith, less)))
    | inr e ↦ evicted-HasRoomFor (is_locked now) key n m m' b (ground (arith, h, new, e))
  ]
]

pub record_address_failure-IsBounded :
    (address : Text) (n now : ℕ) (m : Attempts)
    → IsBounded n m
    → IsBounded n (record_address_failure address n now m)
unfolding record_address_failure
record_address_failure-IsBounded address n now m b = elim (Bool-cases (is_nil address || n == 0)) [
  | inl e ↦ rw e b
  | inr e ↦ elim (Option-cases (address_room address n now m)) [
    | inl full ↦ rw (e, full) b
    | inr (m', h) ↦
        rw (e, h)
          (put-IsBounded address (failed_once now (lookup_or no_attempt address m')) n m'
            (address_room-HasRoomFor address n now m m' b h))
  ]
]
