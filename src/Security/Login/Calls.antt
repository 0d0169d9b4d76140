-- ===== src/Security/Login/Calls.antt =====
-- backend/internal/security/security.go: the calls of the login handlers, and the bounds that hold
-- after any of them.
use llama_rack.Base.{
  ℕ, ◌≤◌, ◌≡◌, refl, subst, inl, inr, arith, length, Bool-cases, Option-cases, ◌∙◌,
}
use llama_rack.Base.Text.{Text, trim_space}
use llama_rack.Base.Maps.{lookup_or, Distinct}
use llama_rack.Security.Login.{
  LoginProtector, LoginSettings, prune_locked, attempt_room, punished, login_key, before_attempt,
  failure, success, new_login_protector, is_enabled,
}
use llama_rack.Security.Login.Entries.{no_attempt}
use llama_rack.Security.Login.Bounds.{
  IsBounded, prune_attempts-IsBounded, prune_addresses-IsBounded, put-IsBounded, delete-IsBounded,
  attempt_room-HasRoomFor, record_address_failure-IsBounded,
}

-- Both maps within their bounds.
pub record IsWithin (p : LoginProtector) : Type 0 where
  pub attempts : IsBounded p.max_items p.attempts
  pub addresses : IsBounded p.max_addresses p.addresses

pub prune_locked-IsWithin :
    (now : ℕ) (p : LoginProtector) → IsWithin p → IsWithin (prune_locked now p)
unfolding prune_locked
prune_locked-IsWithin now p h = record {
  attempts = prune_attempts-IsBounded now p.max_items p.max_items p.attempts h.attempts;
  addresses = prune_addresses-IsBounded now p.max_addresses p.max_addresses p.addresses h.addresses;
}

module _ (lower : ℕ → ℕ) where
  before_attempt-IsWithin :
      (s : LoginSettings) (now : ℕ) (username address : Text) (p : LoginProtector)
      → IsWithin p
      → IsWithin (before_attempt lower s now username address p).0
  unfolding before_attempt
  before_attempt-IsWithin s now username address p h =
      ground (arith, prune_locked-IsWithin now p h, h)

  failure-IsWithin :
      (s : LoginSettings) (now : ℕ) (username address : Text) (p : LoginProtector)
      → IsWithin p
      → IsWithin (failure lower s now username address p).0
  unfolding failure
  failure-IsWithin s now username address p h =
      let key = login_key lower username address in
      let pruned = prune_locked-IsWithin now p h in
      let counted =
        record_address_failure-IsBounded (trim_space address) p.max_addresses now
          (prune_locked now p).addresses pruned.addresses in
      let room = attempt_room key now p.max_items (prune_locked now p).attempts in
      elim (Bool-cases (is_enabled s)) [
        | inr off ↦ rw off h
        | inl on ↦ elim (Option-cases room) [
          | inl full ↦ rw (on, full) (record { attempts = pruned.attempts; addresses = counted })
          | inr (m', found) ↦
              rw (on, found)
                (record {
                  attempts =
                      put-IsBounded key (punished s now (lookup_or no_attempt key m')).0 p.max_items
                        m'
                        (attempt_room-HasRoomFor key now p.max_items (prune_locked now p).attempts
                          m' pruned.attempts found);
                  addresses = counted;
                })
        ]
      ]

  success-IsWithin :
      (username address : Text) (p : LoginProtector)
      → IsWithin p
      → IsWithin (success lower username address p)
  unfolding success
  success-IsWithin username address p h = record {
    attempts =
        delete-IsBounded (login_key lower username address) p.max_items p.attempts h.attempts;
    addresses = h.addresses;
  }

  -- A call of the login handlers.
  pub data Call : Type 0 where
    checks : LoginSettings → ℕ → Text → Text → Call
    fails : LoginSettings → ℕ → Text → Text → Call
    succeeds : Text → Text → Call

  abbrev pub answer : Call → LoginProtector → LoginProtector
  answer (checks s now username address) p = (before_attempt lower s now username address p).0
  answer (fails s now username address) p = (failure lower s now username address p).0
  answer (succeeds username address) p = success lower username address p

  pub data Reach (p : LoginProtector) : LoginProtector → Type 0 where
    here : Reach p p
    next : {q : LoginProtector} → Reach p q → (c : Call) → Reach p (answer c q)

  pub answer-IsWithin : (c : Call) (p : LoginProtector) → IsWithin p → IsWithin (answer c p)
  answer-IsWithin (checks s now username address) p h =
      before_attempt-IsWithin s now username address p h
  answer-IsWithin (fails s now username address) p h = failure-IsWithin s now username address p h
  answer-IsWithin (succeeds username address) p h = success-IsWithin username address p h

  answer-bounds :
      (c : Call) (p : LoginProtector)
      → ((answer c p).max_items ≡ p.max_items) × ((answer c p).max_addresses ≡ p.max_addresses)
  unfolding before_attempt failure success prune_locked
  answer-bounds (checks s now username address) p = ground arith
  answer-bounds (fails s now username address) p = ground arith
  answer-bounds (succeeds username address) p = (refl, refl)

  Reach-IsWithin :
      {p : LoginProtector}
      → Reach new_login_protector p
      → IsWithin p × (p.max_items ≡ 4096) × (p.max_addresses ≡ 1024)
  Reach-IsWithin here = (
    record {
      attempts = record { distinct = tt; few = omega arith };
      addresses = record { distinct = tt; few = omega arith };
    },
    refl,
    refl,
  )
  Reach-IsWithin (next {q = q} r c) =
      let (h, items, addresses) = Reach-IsWithin r in
      let (same_items, same_addresses) = answer-bounds c q in
      (answer-IsWithin c q h, same_items ∙ items, same_addresses ∙ addresses)

  -- Whatever the login handlers call, from a new protector on, it keeps at most 4096 accounts and 1024
  -- addresses, each once.
  pub Reach-bounds :
      {p : LoginProtector}
      → Reach new_login_protector p
      → (Distinct p.attempts × (length p.attempts ≤ 4096))
        × (Distinct p.addresses × (length p.addresses ≤ 1024))
  Reach-bounds {p = p} r =
      let (h, items, addresses) = Reach-IsWithin r in
      (
        (h.attempts.distinct, subst (λ n. length p.attempts ≤ n) items h.attempts.few),
        (h.addresses.distinct, subst (λ n. length p.addresses ≤ n) addresses h.addresses.few),
      )
