-- ===== src/Security/Login/Locks.antt =====
-- backend/internal/security/security.go: a locked account stays locked, and failures lock it.
use llama_rack.Base.{
  ℕ, zero, suc, ◌-◌, ◌<◌, ◌≡◌, refl, sym, subst, ◌∙◌, inl, inr, true, false, not, Option, none,
  some, List, [], ◌∷◌, arith, ltb, length, keep, Bool-cases, Option-cases, All, All-keep,
}
use llama_rack.Base.Int64.{Int64}
use llama_rack.Base.Text.{Text, text_eq, text_eq_iff}
use llama_rack.Base.Maps.{lookup, lookup_or, delete, Distinct, lookup-put_ne, lookup-delete}
use llama_rack.Base.Entries.{lookup-keep, keep-Distinct}
use llama_rack.Security.Login.{
  LoginProtector, LoginSettings, attempt_room, punished, login_key, before_attempt, failure,
  success, prune_locked, is_enabled,
}
use llama_rack.Security.Login.Entries.{
  LoginAttempt, Attempts, no_attempt, make_attempt_room, since, insert_by_age, sort_by_age,
  delete_first, prune_attempts, is_stale, is_locked, login_attempt_penalty,
}
use llama_rack.Security.Login.Bounds.{without_oldest-MayGo}
use llama_rack.Security.Login.Calls.{
  IsWithin, Call, checks, fails, succeeds, answer, answer-IsWithin, prune_locked-IsWithin,
}

-- The entries of other keys.
abbrev Others : Text → Attempts → Type 0
Others k m = All (λ e. text_eq e.0 k ≡ false) m

missing-Others : (k : Text) (m : Attempts) → lookup k m ≡ none → Others k m
unfolding lookup
missing-Others k [] h = tt
missing-Others k ((j, a) ∷ m) h = ground (arith, missing-Others k m)

-- The entries that are not locked are of other keys than a locked one's.
unlocked-Others :
    (now : ℕ) (k : Text) (m : Attempts) {a : LoginAttempt}
    → Distinct m
    → lookup k m ≡ some a
    → is_locked now a ≡ true
    → Others k (keep (λ e. not (is_locked now e.1)) m)
unfolding lookup keep
unlocked-Others now k [] d h l = tt
unlocked-Others now k ((j, b) ∷ m) {a = a} (new, d) h l = elim (Bool-cases (text_eq j k)) [
  | inl e ↦
      let here : a ≡ b = ground (arith, h, e) in
      let missing : lookup k m ≡ none = ground (arith, text_eq_iff j k) in
      rw (sym here, l)
        (All-keep (λ e. text_eq e.0 k ≡ false) (λ e. not (is_locked now e.1)) m
          (missing-Others k m missing))
  | inr e ↦
      let rest = unlocked-Others now k m {a = a} d (ground (arith, h, e)) l in
      ground (arith, rest, e)
]

insert_by_age-Others :
    (k : Text) (e : Text × LoginAttempt) (m : Attempts)
    → text_eq e.0 k ≡ false
    → Others k m
    → Others k (insert_by_age e m)
unfolding insert_by_age
insert_by_age-Others k e [] h hs = (h, tt)
insert_by_age-Others k e (f ∷ m) h hs = ground (arith, insert_by_age-Others k e m)

sort_by_age-Others : (k : Text) (m : Attempts) → Others k m → Others k (sort_by_age m)
unfolding sort_by_age
sort_by_age-Others k [] h = tt
sort_by_age-Others k (e ∷ m) (h, hs) =
    insert_by_age-Others k e (sort_by_age m) h (sort_by_age-Others k m hs)

lookup-delete_first :
    (k : Text) (n : ℕ) (items m : Attempts)
    → Others k items
    → lookup k (delete_first n items m) ≡ lookup k m
unfolding delete_first
lookup-delete_first k zero items m h = refl
lookup-delete_first k (suc n) [] m h = refl
lookup-delete_first k (suc n) ((j, a) ∷ items) m (h, hs) =
    lookup-delete_first k n items (delete j m) hs ∙ rw (lookup-delete j k m, h) refl

-- Pruning keeps a locked account, however many there are.
prune_attempts-locked :
    (now max : ℕ) (k : Text) (m : Attempts) {a : LoginAttempt}
    → Distinct m
    → lookup k m ≡ some a
    → is_locked now a ≡ true
    → lookup k (prune_attempts now max m) ≡ some a
unfolding prune_attempts
prune_attempts-locked now max k m {a = a} d h l =
    let fresh = keep (λ e. not (is_stale now e.1)) m in
    let young : not (is_stale now a) ≡ true = ground (arith, l) in
    let there = lookup-keep (λ e. not (is_stale now e.1)) k m h young in
    let others = sort_by_age-Others k (keep (λ e. not (is_locked now e.1)) fresh) (
      unlocked-Others now k fresh {a = a} (keep-Distinct (λ e. not (is_stale now e.1)) m d) there
        l) in
    elim (Bool-cases (ltb max (length fresh))) [
      | inl over ↦ rw over (
          lookup-delete_first k (length fresh - max)
            (sort_by_age (keep (λ e. not (is_locked now e.1)) fresh)) fresh others
          ∙ there)
      | inr fits ↦ rw fits there
    ]

-- Room for another account is never made by dropping a locked one.
attempt_room-locked :
    (now max : ℕ) (key k : Text) (m m' : Attempts) {a : LoginAttempt}
    → Distinct m
    → attempt_room key now max m ≡ some m'
    → lookup k m ≡ some a
    → is_locked now a ≡ true
    → lookup k m' ≡ some a
unfolding attempt_room make_attempt_room
attempt_room-locked now max key k m m' {a = a} d room h l = elim (Option-cases (lookup key m)) [
  | inr (b, old) ↦
      let same : m ≡ m' = ground (arith, room, old) in subst (λ m. lookup k m ≡ some a) same h
  | inl new ↦ elim (Bool-cases (ltb (length m) max)) [
    | inl fits ↦
        let same : m ≡ m' = ground (arith, room, new, fits) in
        subst (λ m. lookup k m ≡ some a) same h
    | inr full ↦
        let (r, (b, found, free), e) =
          without_oldest-MayGo (is_locked now) m m' d (ground (arith, room, new, full)) in
        let other : text_eq r k ≡ false = kept r b found free in
        rw (e, lookup-delete r k m, other) h
  ]
]
  where
    kept :
        (r : Text) (b : LoginAttempt)
        → lookup r m ≡ some b
        → is_locked now b ≡ false
        → text_eq r k ≡ false
    kept r b found free = elim (Bool-cases (text_eq r k)) [
      | inr other ↦ other
      | inl same ↦
          let e : r ≡ k = (text_eq_iff r k).0 same in
          let one : b ≡ a = ground (arith, subst (λ r. lookup r m ≡ some b) e found, h) in
          absurd (ground (arith, subst (λ b. is_locked now b ≡ false) one free, l))
    ]

penalty-locked :
    (a : LoginAttempt) (now : ℕ) (delay_after : Int64) (o : Option LoginAttempt)
    → o ≡ some a
    → is_locked now a ≡ true
    → login_attempt_penalty (elim o [ none ↦ no_attempt | some v ↦ v ]) now delay_after
      ≡ (since a.locked_until now, true)
unfolding login_attempt_penalty
penalty-locked a now delay_after o e l = rw (e, l) refl

module _ (lower : ℕ → ℕ) where
  -- A call before the lock ends that is not about the account, but for a check.
  abbrev pub Spares : Text → ℕ → Call lower → Type 0
  Spares k until (checks s now username address) = now < until
  Spares k until (fails s now username address) =
      (text_eq (login_key lower username address) k ≡ false) × (now < until)
  Spares k until (succeeds username address) = text_eq (login_key lower username address) k ≡ false

  failure-locked :
      (s : LoginSettings) (now : ℕ) (username address k : Text) (p : LoginProtector)
      {a : LoginAttempt}
      → IsWithin p
      → lookup k p.attempts ≡ some a
      → text_eq (login_key lower username address) k ≡ false
      → now < a.locked_until
      → lookup k (failure lower s now username address p).0.attempts ≡ some a
  unfolding failure
  failure-locked s now username address k p {a = a} w h other before =
      let key = login_key lower username address in
      let l : is_locked now a ≡ true = ground (arith, before) in
      let pruned =
        prune_attempts-locked now p.max_items k p.attempts {a = a} w.attempts.distinct h l in
      let w' = prune_locked-IsWithin now p w in
      elim (Bool-cases (is_enabled s)) [
        | inr off ↦ rw off h
        | inl on ↦
            elim (Option-cases (attempt_room key now p.max_items (prune_locked now p).attempts)) [
              | inl full ↦ rw (on, full) pruned
              | inr (m', found) ↦
                  rw (on, found)
                    (lookup-put_ne key k (punished s now (lookup_or no_attempt key m')).0 m' other
                      ∙ attempt_room-locked now p.max_items key k (prune_locked now p).attempts m'
                          {a = a} w'.attempts.distinct found pruned l)
            ]
      ]

  answer-locked :
      (c : Call lower) (k : Text) (p : LoginProtector) {a : LoginAttempt}
      → IsWithin p
      → lookup k p.attempts ≡ some a
      → Spares k a.locked_until c
      → lookup k (answer lower c p).attempts ≡ some a
  unfolding before_attempt success prune_locked
  answer-locked (checks s now username address) k p {a = a} w h before =
      let l : is_locked now a ≡ true = ground (arith, before) in
      ground (
        arith,
        prune_attempts-locked now p.max_items k p.attempts {a = a} w.attempts.distinct h l,
        h,
      )
  answer-locked (fails s now username address) k p {a = a} w h (other, before) =
      failure-locked s now username address k p {a = a} w h other before
  answer-locked (succeeds username address) k p w h other =
      rw (lookup-delete (login_key lower username address) k p.attempts, other) h

  abbrev pub answers : List (Call lower) → LoginProtector → LoginProtector
  answers [] p = p
  answers (c ∷ calls) p = answers calls (answer lower c p)

  answers-locked :
      (calls : List (Call lower)) (k : Text) (p : LoginProtector) {a : LoginAttempt}
      → IsWithin p
      → lookup k p.attempts ≡ some a
      → All (Spares k a.locked_until) calls
      → IsWithin (answers calls p) × (lookup k (answers calls p).attempts ≡ some a)
  answers-locked [] k p w h spares = (w, h)
  answers-locked (c ∷ calls) k p {a = a} w h (first, spares) =
      answers-locked calls k (answer lower c p) {a = a} (answer-IsWithin lower c p w)
        (answer-locked c k p {a = a} w h first) spares

  check-locked :
      (s : LoginSettings) (now : ℕ) (username address : Text) (q : LoginProtector)
      (a : LoginAttempt)
      → is_enabled s ≡ true
      → lookup (login_key lower username address) (prune_locked now q).attempts ≡ some a
      → is_locked now a ≡ true
      → (before_attempt lower s now username address q).1 ≡ (since a.locked_until now, true)
  unfolding before_attempt
  check-locked s now username address q a on found l =
      let penalty =
        penalty-locked a now 2
          (lookup (login_key lower username address) (prune_locked now q).attempts) found l in
      rw (on, penalty) refl

  -- A locked account stays locked: whatever calls come first, and however many other accounts they
  -- fill the protector with, a check before the lock ends reports the lock and the time it still takes,
  -- as long as none of them fails or succeeds for this account, and all of them that have a time come
  -- before the lock ends.
  pub before_attempt-locked :
      (calls : List (Call lower)) (s : LoginSettings) (now : ℕ) (username address : Text)
      (p : LoginProtector) (a : LoginAttempt)
      → IsWithin p
      → lookup (login_key lower username address) p.attempts ≡ some a
      → All (Spares (login_key lower username address) a.locked_until) calls
      → s.protection_enabled ≡ some true
      → now < a.locked_until
      → (before_attempt lower s now username address (answers calls p)).1
        ≡ (since a.locked_until now, true)
  unfolding is_enabled prune_locked
  before_attempt-locked calls s now username address p a w h spares on before =
      let key = login_key lower username address in
      let l : is_locked now a ≡ true = ground (arith, before) in
      let q = answers calls p in
      let (w', h') = answers-locked calls key p {a = a} w h spares in
      let pruned =
        prune_attempts-locked now q.max_items key q.attempts {a = a} w'.attempts.distinct h' l in
      check-locked s now username address q a (rw on refl) pruned l
