-- ===== src/Tests/Pending.antt =====
-- Requests on an instance that may have two of them wait.
use llama_rack.Base.{◌≡◌, ◌≤◌, ◌⊎◌, arith, [], some, none, true, false, ◌&&◌}
use llama_rack.Base.Int64.{lt64, le64}
use llama_rack.Base.Text.{codes, text_eq}
use llama_rack.Base.Maps.{put, lookup}
use llama_rack.Lifecycle.Pending.{
  Activities, Instance, instance_scope, global_scope, effective_pending_limit,
  manager_pending_limits, reserve_pending, activate_request, decrement, global_pending,
}
use llama_rack.Lifecycle.Pending.Limits.{
  Reach, initial, next, reserved, activated, waiting, Reach-waiting, reserve_pending-Outcome,
}

abbrev model : Instance
model = record { id = codes "a"; max_pending_requests = 2 }

abbrev once : Activities
once = (reserve_pending none model 5 []).0

abbrev activities : Activities
activities = (reserve_pending none model 7 (activate_request model.id 6 once)).0

run : Reach none activities
run = next (next (next initial (reserved model 5)) (activated model.id 6)) (reserved model 7)

Reach-waiting_example : waiting activities ≤ 128
unfolding manager_pending_limits
Reach-waiting_example = Reach-waiting none (omega arith) (omega arith) run

reserve_pending_example :
    (((reserve_pending none model 9 activities).1 ≡ some instance_scope)
      × ((reserve_pending none model 9 activities).0 ≡ activities)
      × ((lt64 0 2 && le64 2 1) ≡ true))
    ⊎ ((((reserve_pending none model 9 activities).1 ≡ some global_scope)
          × ((reserve_pending none model 9 activities).0 ≡ activities)
          × ((lt64 0 128 && le64 128 1) ≡ true))
        ⊎ (((reserve_pending none model 9 activities).1 ≡ none)
            × ((lt64 0 2 && le64 2 1) ≡ false)
            × ((lt64 0 128 && le64 128 1) ≡ false)
            × (waiting (reserve_pending none model 9 activities).0 ≡ 2)))
unfolding manager_pending_limits effective_pending_limit reserve_pending activate_request decrement
    put lookup text_eq global_pending
reserve_pending_example = reserve_pending-Outcome none model 9 activities (omega arith)
