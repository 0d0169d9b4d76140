-- ===== src/Gateway/Active.antt =====
-- backend/internal/gateway/active.go: the registry of running requests. Both maps of the registry hold
-- pointers to the same entries; a pointer is a number here, and `heap` the memory behind it. `cancels`
-- lists the entries whose `cancel` has been called. The methods hold the mutex, so each is one step.
pub mod Invariant
pub mod Cancel
pub mod Calls
use llama_rack.Base.{
  ℕ, Bool, true, false, ◌&&◌, ◌||◌, not, Option, none, some, List, [], ◌∷◌, ◌==◌, if◌then◌else◌,
  is_nil,
}
use llama_rack.Base.Text.{Text, text_eq}
use llama_rack.Base.Maps.{Map, lookup, put, delete}

pub record ActiveRequest : Type 0 where
  pub manager_request_id : Text
  pub instance_id : Text
  pub owner_kind : Text
  pub owner_id : Text
  -- The URL, in its text.
  pub target : Text
  -- Whether `cancel` is set.
  pub has_cancel : Bool
  pub upstream_id : Text
  pub endpoint : Text
  pub started_at : ℕ
  pub model : Text
  pub cancelled : Bool

abbrev pub Pointer : Type 0
Pointer = ℕ

pub record ActiveRegistry : Type 0 where
  pub heap : Pointer → ActiveRequest
  pub by_manager : Map Pointer
  pub by_upstream : Map Pointer
  pub cancels : List Pointer

-- The memory with a new entry behind the pointer.
abbrev pub write : Pointer → ActiveRequest → (Pointer → ActiveRequest) → Pointer → ActiveRequest
write r entry heap q = if r == q then entry else heap q

abbrev pub new_active_registry : (Pointer → ActiveRequest) → ActiveRegistry
new_active_registry heap = record { heap = heap; by_manager = []; by_upstream = []; cancels = [] }

unfoldable pub register : Pointer → ActiveRegistry → ActiveRegistry
register r g =
    let entry = g.heap r in
    if is_nil entry.manager_request_id then g else record g {
      by_manager = put entry.manager_request_id r g.by_manager;
      by_upstream =
          if is_nil entry.upstream_id then g.by_upstream else put entry.upstream_id r g.by_upstream;
    }

unfoldable pub set_upstream_id : Text → Text → ActiveRegistry → ActiveRegistry
set_upstream_id manager_id upstream_id g = elim (lookup manager_id g.by_manager) [
  | none ↦ g
  | some r ↦
      let entry = g.heap r in
      let moved = not (is_nil entry.upstream_id) && not (text_eq entry.upstream_id upstream_id) in
      let cleared = if moved then delete entry.upstream_id g.by_upstream else g.by_upstream in
      if is_nil manager_id || is_nil upstream_id then g else record g {
        heap = write r (record entry { upstream_id = upstream_id }) g.heap;
        by_upstream = put upstream_id r cleared;
      }
]

-- A copy of the entry.
unfoldable pub get_by_upstream : Text → ActiveRegistry → Option ActiveRequest
get_by_upstream id g =
    if is_nil id
    then none
    else elim (lookup id g.by_upstream) [ none ↦ none | some r ↦ some (g.heap r) ]

pub data CancelAuthResult : Type 0 where
  cancel_auth_ok : CancelAuthResult
  cancel_auth_not_found : CancelAuthResult
  cancel_auth_forbidden : CancelAuthResult

-- The copy of the entry, whether this call cancelled it, and how the caller fared.
pub record Cancelled : Type 0 where
  pub entry : Option ActiveRequest
  pub cancelled : Bool
  pub auth : CancelAuthResult

abbrev pub cancel_result : Option ActiveRequest → Bool → CancelAuthResult → Cancelled
cancel_result entry cancelled auth = record { entry = entry; cancelled = cancelled; auth = auth }

-- What an optional test says of a pair of texts, or of one; with none it passes.
abbrev pub passes {ℓ} : {A : Type ℓ} → Option (A → Bool) → A → Bool
passes none a = true
passes (some test) a = test a

unfoldable pub cancel_entry : Pointer → ActiveRegistry → ActiveRegistry
cancel_entry r g = record g {
  heap = write r (record (g.heap r) { cancelled = true }) g.heap;
  cancels = if (g.heap r).has_cancel then r ∷ g.cancels else g.cancels;
}

unfoldable pub cancel_by_upstream_authorized :
    Text
    → Option (Text × Text → Bool)
    → Option (Text → Bool)
    → ActiveRegistry
    → ActiveRegistry × Cancelled
unfolding cancel_entry
cancel_by_upstream_authorized id owner_allowed instance_allowed g =
    if is_nil id
    then (g, cancel_result none false cancel_auth_not_found)
    else elim (lookup id g.by_upstream) [
      | none ↦ (g, cancel_result none false cancel_auth_not_found)
      | some r ↦
          let entry = g.heap r in
          if not (passes owner_allowed (entry.owner_kind, entry.owner_id))
          then (g, cancel_result (some entry) false cancel_auth_not_found)
          else if not (passes instance_allowed entry.instance_id)
          then (g, cancel_result (some entry) false cancel_auth_forbidden)
          else if entry.cancelled
          then (g, cancel_result (some entry) false cancel_auth_ok)
          else (
            cancel_entry r g,
            cancel_result (some (record entry { cancelled = true })) true cancel_auth_ok,
          )
    ]

unfoldable pub cancel_by_upstream :
    Text → ActiveRegistry → ActiveRegistry × (Option ActiveRequest × Bool)
unfolding cancel_by_upstream_authorized
cancel_by_upstream id g =
    let (g', result) = cancel_by_upstream_authorized id none none g in
    (g', (result.entry, result.cancelled))

-- Whether the map gives this pointer.
abbrev pub points : Text → Pointer → Map Pointer → Bool
points id r m = elim (lookup id m) [ none ↦ false | some q ↦ q == r ]

unfoldable pub remove : Text → ActiveRegistry → ActiveRegistry
remove manager_id g = elim (lookup manager_id g.by_manager) [
  | none ↦ g
  | some r ↦
      let upstream_id = (g.heap r).upstream_id in
      if is_nil manager_id then g else record g {
        by_manager = delete manager_id g.by_manager;
        by_upstream =
            if not (is_nil upstream_id) && points upstream_id r g.by_upstream
            then delete upstream_id g.by_upstream
            else g.by_upstream;
      }
]

-- What one look of `waitRemoved` finds.
unfoldable pub is_removed : Text → ActiveRegistry → Bool
is_removed manager_id g =
    if is_nil manager_id
    then true
    else elim (lookup manager_id g.by_manager) [ none ↦ true | some r ↦ false ]
