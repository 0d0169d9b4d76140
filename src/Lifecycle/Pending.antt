-- ===== src/Lifecycle/Pending.antt =====
-- backend/internal/lifecycle/pending.go and the record `Activity` of service.go: how many requests of
-- each instance wait or run. Each operation holds the mutex, so it is one step.
pub mod Limits
use llama_rack.Base.{ℕ, ◌&&◌, Option, none, some, [], ◌∷◌, if◌then◌else◌}
use llama_rack.Base.Int64.{Int64, add64, sub64, lt64, le64}
use llama_rack.Base.Text.{Text}
use llama_rack.Base.Maps.{Map, lookup_or, put}

pub record Activity : Type 0 where
  pub pending_requests : Int64
  pub active_requests : Int64
  pub last_used : ℕ

abbrev pub no_activity : Activity
no_activity = record { pending_requests = 0; active_requests = 0; last_used = 0 }

-- The limits of the manager; a limit that is not positive is none.
pub record PendingLimits : Type 0 where
  pub per_instance : Int64
  pub global : Int64

-- What is read of an instance.
pub record Instance : Type 0 where
  pub id : Text
  pub max_pending_requests : Int64

pub data QueueLimitScope : Type 0 where
  instance_scope : QueueLimitScope
  global_scope : QueueLimitScope

abbrev pub Activities : Type 0
Activities = Map Activity

-- s.activities[id].
abbrev pub activity_of : Text → Activities → Activity
activity_of id activities = lookup_or no_activity id activities

-- The limits that are used while no getter is set.
abbrev pub default_limits : PendingLimits
default_limits = record { per_instance = 32; global = 128 }

unfoldable pub manager_pending_limits : Option PendingLimits → PendingLimits
manager_pending_limits none = default_limits
manager_pending_limits (some limits) = limits

unfoldable pub effective_pending_limit : Int64 → Int64 → Int64
effective_pending_limit override default = if lt64 0 override then override else default

unfoldable pub pending_from : Int64 → Activities → Int64
pending_from total [] = total
pending_from total ((id, activity) ∷ activities) =
    pending_from (add64 total activity.pending_requests) activities

unfoldable pub global_pending : Activities → Int64
unfolding pending_from
global_pending activities = pending_from 0 activities

-- The activities, and the scope of the limit that refused the request.
unfoldable pub reserve_pending :
    Option PendingLimits → Instance → ℕ → Activities → Activities × Option QueueLimitScope
reserve_pending getter i now activities =
    let limits = manager_pending_limits getter in
    let effective = effective_pending_limit i.max_pending_requests limits.per_instance in
    let activity = activity_of i.id activities in
    if lt64 0 effective && le64 effective activity.pending_requests
    then (activities, some instance_scope)
    else if lt64 0 limits.global && le64 limits.global (global_pending activities)
    then (activities, some global_scope)
    else (
      put i.id
          (record activity {
            pending_requests = add64 activity.pending_requests 1;
            last_used = now;
          })
          activities,
      none,
    )

-- if n > 0 { n-- }
unfoldable pub decrement : Int64 → Int64
decrement n = if lt64 0 n then sub64 n 1 else n

unfoldable pub release_pending : Text → ℕ → Activities → Activities
release_pending id now activities =
    let activity = activity_of id activities in
    put id
      (record activity { pending_requests = decrement activity.pending_requests; last_used = now })
      activities

unfoldable pub activate_request : Text → ℕ → Activities → Activities
activate_request id now activities =
    let activity = activity_of id activities in
    put id
      (record activity {
        pending_requests = decrement activity.pending_requests;
        active_requests = add64 activity.active_requests 1;
        last_used = now;
      })
      activities

unfoldable pub finish_active : Text → ℕ → Activities → Activities
finish_active id now activities =
    let activity = activity_of id activities in
    put id
      (record activity { active_requests = decrement activity.active_requests; last_used = now })
      activities

unfoldable pub activity_demand : Activity → Int64
activity_demand a = add64 a.pending_requests a.active_requests
