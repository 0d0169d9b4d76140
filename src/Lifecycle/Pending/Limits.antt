-- ===== src/Lifecycle/Pending/Limits.antt =====
-- backend/internal/lifecycle/pending.go: the limits hold whatever the order of the requests.
use llama_rack.Base.{
  ℕ, ◌+◌, ◌≤◌, ◌<◌, ◌≡◌, ◌^◌, refl, ◌∙◌, true, false, ◌&&◌, Option, none, some, [], ◌∷◌, arith, inl,
  inr, ◌⊎◌, Bool-cases,
}
use llama_rack.Base.Int64.{Int64, IsNonneg, add64, lt64, le64}
use llama_rack.Base.Text.{Text}
use llama_rack.Base.Maps.{lookup, put}
use llama_rack.Lifecycle.Pending.{
  Activity, Activities, PendingLimits, Instance, activity_of, pending_from, global_pending,
  reserve_pending, decrement, release_pending, activate_request, finish_active,
  manager_pending_limits, effective_pending_limit, instance_scope, global_scope,
}

-- The requests that wait, counted without wrapping around.
abbrev pub waiting : Activities → ℕ
waiting [] = 0
waiting ((id, a) ∷ activities) = a.pending_requests + waiting activities

pending_from-waiting :
    (total : Int64) (activities : Activities)
    → total + waiting activities < 2 ^ 63
    → pending_from total activities ≡ total + waiting activities
unfolding pending_from
pending_from-waiting total [] h = omega arith
pending_from-waiting total ((id, a) ∷ activities) h =
    let same : add64 total a.pending_requests ≡ total + a.pending_requests = omega arith in
    rw same
      (pending_from-waiting (total + a.pending_requests) activities (omega arith) ∙ omega arith)

-- A write takes the place of the entry of its key.
waiting-put :
    (id : Text) (a : Activity) (activities : Activities)
    → waiting (put id a activities) + (activity_of id activities).pending_requests
      ≡ waiting activities + a.pending_requests
unfolding put lookup
waiting-put id a [] = omega arith
waiting-put id a ((key, b) ∷ activities) = ground (arith, waiting-put id a activities)

activity_of-waiting :
    (id : Text) (activities : Activities)
    → (activity_of id activities).pending_requests ≤ waiting activities
unfolding lookup
activity_of-waiting id [] = omega arith
activity_of-waiting id ((key, b) ∷ activities) = ground (arith, activity_of-waiting id activities)

-- A step of the admission, with the manager's limits, at some time.
pub data Step (getter : Option PendingLimits) : Activities → Activities → Type 0 where
  reserved :
      {activities : Activities} (i : Instance) (now : ℕ)
      → Step getter activities (reserve_pending getter i now activities).0
  released :
      {activities : Activities} (id : Text) (now : ℕ)
      → Step getter activities (release_pending id now activities)
  activated :
      {activities : Activities} (id : Text) (now : ℕ)
      → Step getter activities (activate_request id now activities)
  finished :
      {activities : Activities} (id : Text) (now : ℕ)
      → Step getter activities (finish_active id now activities)

pub data Reach (getter : Option PendingLimits) : Activities → Type 0 where
  initial : Reach getter []
  next :
      {before after : Activities}
      → Reach getter before
      → Step getter before after
      → Reach getter after

reserve-waiting :
    (getter : Option PendingLimits) (i : Instance) (now : ℕ) (activities : Activities)
    → 0 < (manager_pending_limits getter).global
    → IsNonneg (manager_pending_limits getter).global
    → waiting activities ≤ (manager_pending_limits getter).global
    → waiting (reserve_pending getter i now activities).0 ≤ (manager_pending_limits getter).global
unfolding reserve_pending global_pending
reserve-waiting getter i now activities p n h =
    let sum = pending_from-waiting 0 activities (omega arith) in
    ground (
      arith,
      sum,
      activity_of-waiting i.id activities,
      waiting-put i.id
          (record (activity_of i.id activities) {
            pending_requests = add64 (activity_of i.id activities).pending_requests 1;
            last_used = now;
          })
          activities,
    )

decrement-le : (n : Int64) → IsNonneg n → decrement n ≤ n
unfolding decrement
decrement-le n h = ground arith

-- Writing an activity that waits no longer than the one before adds nothing.
lighter :
    (id : Text) (a : Activity) (activities : Activities)
    → a.pending_requests ≤ (activity_of id activities).pending_requests
    → waiting (put id a activities) ≤ waiting activities
lighter id a activities h = omega (arith, waiting-put id a activities)

small :
    (id : Text) (activities : Activities)
    → waiting activities < 2 ^ 63
    → IsNonneg (activity_of id activities).pending_requests
small id activities h = omega (arith, activity_of-waiting id activities)

Step-waiting :
    (getter : Option PendingLimits) {before after : Activities}
    → 0 < (manager_pending_limits getter).global
    → IsNonneg (manager_pending_limits getter).global
    → waiting before ≤ (manager_pending_limits getter).global
    → Step getter before after
    → waiting after ≤ (manager_pending_limits getter).global
unfolding release_pending activate_request finish_active
Step-waiting getter p n h (reserved {activities} i now) =
    reserve-waiting getter i now activities p n h
Step-waiting getter p n h (released {activities} id now) =
    let less = decrement-le _ (small id activities (omega arith)) in
    let fewer : waiting (release_pending id now activities) ≤ waiting activities =
      lighter id _ activities less in
    omega (arith, fewer)
Step-waiting getter p n h (activated {activities} id now) =
    let less = decrement-le _ (small id activities (omega arith)) in
    let fewer : waiting (activate_request id now activities) ≤ waiting activities =
      lighter id _ activities less in
    omega (arith, fewer)
Step-waiting getter p n h (finished {activities} id now) =
    let same : (activity_of id activities).pending_requests
        ≤ (activity_of id activities).pending_requests =
      omega arith in
    let fewer : waiting (finish_active id now activities) ≤ waiting activities =
      lighter id _ activities same in
    omega (arith, fewer)

-- Whatever the order in which requests are reserved, released, activated and finished, no more
-- requests wait than the manager's global limit, where that is positive and the same throughout.
pub Reach-waiting :
    (getter : Option PendingLimits) {activities : Activities}
    → 0 < (manager_pending_limits getter).global
    → IsNonneg (manager_pending_limits getter).global
    → Reach getter activities
    → waiting activities ≤ (manager_pending_limits getter).global
Reach-waiting getter p n initial = omega arith
Reach-waiting getter p n (next {before} {after} reach step) =
    Step-waiting getter p n (Reach-waiting getter p n reach) step

-- A reservation is refused at a limit that is reached, with the activities as they were, or it lets
-- exactly one more request wait, and then neither the instance's limit nor the global one was
-- reached.
pub reserve_pending-Outcome :
    (getter : Option PendingLimits) (i : Instance) (now : ℕ) (activities : Activities)
    → waiting activities < 2 ^ 62
    → let limits = manager_pending_limits getter in
      let effective = effective_pending_limit i.max_pending_requests limits.per_instance in
      let own_full =
        lt64 0 effective && le64 effective (activity_of i.id activities).pending_requests in
      let all_full = lt64 0 limits.global && le64 limits.global (waiting activities) in
      let (after, refusal) = reserve_pending getter i now activities in
      ((refusal ≡ some instance_scope) × (after ≡ activities) × (own_full ≡ true))
      ⊎ (((refusal ≡ some global_scope) × (after ≡ activities) × (all_full ≡ true))
          ⊎ ((refusal ≡ none)
              × (own_full ≡ false)
              × (all_full ≡ false)
              × (waiting after ≡ waiting activities + 1)))
unfolding reserve_pending global_pending
reserve_pending-Outcome getter i now activities h =
    let limits = manager_pending_limits getter in
    let effective = effective_pending_limit i.max_pending_requests limits.per_instance in
    let before = activity_of i.id activities in
    let own_full = lt64 0 effective && le64 effective before.pending_requests in
    let all_full = lt64 0 limits.global && le64 limits.global (waiting activities) in
    let sum : pending_from 0 activities ≡ waiting activities =
      pending_from-waiting 0 activities (omega arith) ∙ omega arith in
    let written =
      waiting-put i.id
        (record before { pending_requests = add64 before.pending_requests 1; last_used = now })
        activities in
    let fits : add64 before.pending_requests 1 ≡ before.pending_requests + 1 =
      omega (arith, activity_of-waiting i.id activities) in
    elim (Bool-cases own_full) [
      | inl e ↦ rw (sum, e) (inl (refl, refl, refl))
      | inr e ↦ elim (Bool-cases all_full) [
        | inl d ↦ rw (sum, e, d) (inr (inl (refl, refl, refl)))
        | inr d ↦ rw (sum, e, d) (inr (inr (refl, refl, refl, omega (arith, written, fits))))
      ]
    ]
