-- ===== src/Scheduler/Ledger.antt =====
-- backend/internal/scheduler/reservation.go: the ledger of leases. A method takes the ledger and
-- returns the new one; the mutex makes each call one step. Readings of the clock and the random id
-- of a new lease are arguments. An instant is a number, and 0 is the zero time.
pub mod Operations
pub mod Invariant
pub mod Admit
pub mod Sweep
pub mod Calls
pub mod History
pub mod Outcome
use llama_rack.Base.{
  ℕ, ◌+◌, Bool, true, false, ◌&&◌, ◌||◌, not, Option, none, some, List, [], ◌∷◌, ◌++◌, ◌==◌, ltb,
  if◌then◌else◌, is_nil, keep,
}
use llama_rack.Base.Int64.{Int64, add64, lt64, le64}
use llama_rack.Base.Text.{Text, codes, text_eq, one_of, trim_space, to_lower}
use llama_rack.Base.Maps.{Map, lookup, lookup_or, put, delete}
use llama_rack.Hardware.{Snapshot}
use llama_rack.Scheduler.Errors.{
  Result, ok, err, ◌>>=◌, owner_id_required, owner_kind_unknown, owner_conflict,
}
use llama_rack.Scheduler.Placement.{Placement, PlacementRequest}
use llama_rack.Scheduler.Capacity.{GpuReservation, Occupancy, no_occupancy, occupy}

-- `unset` is the empty state of a lease that was never recorded.
pub data LeaseState : Type 0 where
  unset pending committed : LeaseState

unfoldable pub is_pending : LeaseState → Bool
is_pending unset = false
is_pending pending = true
is_pending committed = false

abbrev pub owner_instance : Text
owner_instance = codes "instance"

abbrev pub owner_benchmark : Text
owner_benchmark = codes "benchmark"

abbrev pub default_lease_ttl : ℕ
default_lease_ttl = 180_000_000_000

pub record ResourceOwner : Type 0 where
  pub kind : Text
  pub id : Text

pub record ResourceLease : Type 0 where
  pub id : Text
  pub owner : ResourceOwner
  pub instance_id : Text
  pub placement : Placement
  pub gpus : List GpuReservation
  pub host_ram : Int64
  pub state : LeaseState
  pub expires_at : ℕ

pub record Credit : Type 0 where
  pub instance_id : Text
  pub bytes : Int64
  pub gpus : List GpuReservation
  pub host_ram : Int64

pub record AcquireRequest : Type 0 where
  pub owner : ResourceOwner
  pub instance_id : Text
  pub snapshot : Snapshot
  pub placement : PlacementRequest
  pub credits : List Credit
  pub host_ram : Int64

pub record Ledger : Type 0 where
  pub ttl : ℕ
  pub leases : Map ResourceLease
  pub by_owner : Map Text
  pub claimed : Map Text

-- `NewLedgerWithTTL`; a duration that is not positive is 0 here.
unfoldable pub new_ledger_with_ttl : ℕ → Ledger
new_ledger_with_ttl ttl = record {
  ttl = if ttl == 0 then default_lease_ttl else ttl;
  leases = [];
  by_owner = [];
  claimed = [];
}

unfoldable pub new_ledger : Ledger
unfolding new_ledger_with_ttl
new_ledger = new_ledger_with_ttl default_lease_ttl

-- owner.Kind + "\x00" + owner.ID
unfoldable pub resource_owner_key : ResourceOwner → Text
resource_owner_key o = o.kind ++ (0 ∷ o.id)

unfoldable pub normalize_owner : ResourceOwner → Text → Result ResourceOwner
normalize_owner owner legacy =
    let kind = to_lower (trim_space owner.kind) in
    let id = trim_space owner.id in
    let instance_id = trim_space legacy in
    let by_legacy = is_nil kind && is_nil id && not (is_nil instance_id) in
    let kind' = if by_legacy then owner_instance else kind in
    let id' = if by_legacy then instance_id else id in
    if is_nil id'
    then err owner_id_required
    else if not (text_eq kind' owner_instance) && not (text_eq kind' owner_benchmark)
    then err owner_kind_unknown
    else if not (is_nil instance_id)
        && (not (text_eq kind' owner_instance) || not (text_eq id' instance_id))
    then err owner_conflict
    else ok (record { kind = kind'; id = id' })

unfoldable pub release_locked : Text → Ledger → Ledger
release_locked id l = elim (lookup id l.leases) [
  | none ↦ l
  | some lease ↦
      let key = resource_owner_key lease.owner in
      record l {
        leases = delete id l.leases;
        by_owner =
            if text_eq (lookup_or [] key l.by_owner) id then delete key l.by_owner else l.by_owner;
        claimed = keep (λ e. not (text_eq e.1 id)) l.claimed;
      }
]

unfoldable pub release_owner_locked : ResourceOwner → Ledger → Ledger
release_owner_locked owner l =
    let id = lookup_or [] (resource_owner_key owner) l.by_owner in
    if is_nil id then l else release_locked id l

unfoldable pub is_expired : ℕ → ResourceLease → Bool
is_expired now lease =
    is_pending lease.state && not (lease.expires_at == 0) && ltb lease.expires_at now

-- The loop over the leases as they stand at its start.
unfoldable pub sweep_from : ℕ → Map ResourceLease → Ledger → Ledger
sweep_from now [] l = l
sweep_from now ((id, lease) ∷ rest) l =
    sweep_from now rest (if is_expired now lease then release_locked id l else l)

unfoldable pub sweep_expired : ℕ → Ledger → Ledger
unfolding sweep_from
sweep_expired now l = sweep_from now l.leases l

unfoldable pub lease_by_instance : Text → Ledger → Option ResourceLease
lease_by_instance instance_id l =
    let key = resource_owner_key (record { kind = owner_instance; id = instance_id }) in
    let id = lookup_or [] key l.by_owner in if is_nil id then none else lookup id l.leases

-- What `usableCreditsLocked` gathers: the victims, their bytes by device, and host bytes.
pub record UsableCredits : Type 0 where
  pub victims : List Text
  pub bytes_by_device : Map Int64
  pub host_bytes : Int64

abbrev pub no_credits : UsableCredits
no_credits = record { victims = []; bytes_by_device = []; host_bytes = 0 }

unfoldable pub credit_gpus : List GpuReservation → Map Int64 → Map Int64
credit_gpus [] m = m
credit_gpus (g ∷ gpus) m =
    let id = trim_space g.device_id in
    credit_gpus gpus
      (if is_nil id || le64 g.bytes 0 then m else put id (add64 (lookup_or 0 id m) g.bytes) m)

unfoldable pub add_victim : Text → List Text → List Text
add_victim victim victims = if one_of victim victims then victims else victims ++ (victim ∷ [])

unfoldable pub use_credit : Ledger → Text → Credit → UsableCredits → UsableCredits
use_credit l requester credit u =
    let victim = credit.instance_id in
    if is_nil victim || text_eq victim requester
    then u
    else if not (is_nil (lookup_or [] victim l.claimed))
    then u
    else elim (lease_by_instance victim l) [
      | none ↦ u
      | some existing ↦ record {
        victims = add_victim victim u.victims;
        bytes_by_device =
            credit_gpus (if is_nil credit.gpus then existing.gpus else credit.gpus)
              u.bytes_by_device;
        host_bytes =
            if lt64 0 existing.host_ram then add64 u.host_bytes existing.host_ram else u.host_bytes;
      }
    ]

unfoldable pub usable_credits_from : Ledger → Text → UsableCredits → List Credit → UsableCredits
unfolding use_credit
usable_credits_from l requester u [] = u
usable_credits_from l requester u (credit ∷ credits) =
    usable_credits_from l requester (use_credit l requester credit u) credits

abbrev pub usable_credits : Ledger → Text → List Credit → UsableCredits
usable_credits l requester credits = usable_credits_from l requester no_credits credits

unfoldable pub occupy_gpus : Bool → List GpuReservation → Map Occupancy → Map Occupancy
occupy_gpus waiting [] m = m
occupy_gpus waiting (g ∷ gpus) m =
    occupy_gpus waiting gpus
      (put g.device_id (occupy waiting g.bytes (lookup_or no_occupancy g.device_id m)) m)

-- Whether a lease is passed over: the acquiring owner's own, or a credited victim's.
unfoldable pub is_ignored : Text → List Text → ResourceLease → Bool
is_ignored ignore_owner victims lease =
    text_eq (resource_owner_key lease.owner) ignore_owner
    || (not (is_nil lease.instance_id) && one_of lease.instance_id victims)

unfoldable pub occupancy_from :
    Text → List Text → Map Occupancy × Occupancy → Map ResourceLease → Map Occupancy × Occupancy
occupancy_from ignore_owner victims (out, host) [] = (out, host)
occupancy_from ignore_owner victims (out, host) ((id, lease) ∷ leases) =
    let waiting = is_pending lease.state in
    let ignored = is_ignored ignore_owner victims lease in
    occupancy_from ignore_owner victims
      (
        if ignored then out else occupy_gpus waiting lease.gpus out,
        if ignored then host else occupy waiting lease.host_ram host,
      )
      leases

unfoldable pub occupancy : Ledger → Text → List Text → Map Occupancy × Occupancy
unfolding occupancy_from
occupancy l ignore_owner victims = occupancy_from ignore_owner victims ([], no_occupancy) l.leases
