-- ===== src/Scheduler/Eviction.antt =====
-- backend/internal/scheduler/eviction.go: the loaded instances that may be stopped, in which order,
-- and what stopping them gives back. An instant is a number, and 0 is the zero time.
pub mod Cover
pub mod Rank
pub mod Sound
use llama_rack.Base.{
  ℕ, Bool, true, false, ◌&&◌, ◌||◌, not, List, [], ◌∷◌, ◌++◌, map, ◌==◌, ltb, if◌then◌else◌, is_nil,
  keep,
}
use llama_rack.Base.Int64.{Int64, add64, lt64, le64}
use llama_rack.Base.Text.{Text, codes, text_eq, one_of, to_lower, trim_space}
use llama_rack.Base.Maps.{Map, lookup_or, put}
use llama_rack.Hardware.{Snapshot}
use llama_rack.Scheduler.Placement.{Placement}
use llama_rack.Scheduler.Placement.Gpus.{text_lt}
use llama_rack.Scheduler.Capacity.{GpuReservation, no_occupancy, adjust_snapshot}
use llama_rack.Scheduler.Ledger.{Credit}

pub record GpuResource : Type 0 where
  pub device_id : Text
  pub bytes : Int64

pub record CandidateResources : Type 0 where
  pub host_ram_bytes : Int64
  pub gpu : List GpuResource

pub record Candidate : Type 0 where
  pub model_id : Text
  pub instance_id : Text
  pub priority : Text
  pub always_on : Bool
  pub eviction_enabled : Bool
  pub active_requests : Int64
  pub last_used : ℕ
  pub estimated_bytes : Int64
  pub resources : CandidateResources
  pub ready : Bool

pub record Plan : Type 0 where
  pub evict : List Candidate
  pub freed_bytes : Int64
  pub freed_host_ram_bytes : Int64
  pub freed : List GpuResource
  pub devices : List Text
  pub fits : Bool

abbrev pub empty_plan : Bool → Plan
empty_plan fits = record {
  evict = [];
  freed_bytes = 0;
  freed_host_ram_bytes = 0;
  freed = [];
  devices = [];
  fits = fits;
}

unfoldable pub priority_rank : Text → ℕ
priority_rank priority =
    let p = to_lower (trim_space priority) in
    if text_eq p (codes "low") then 0 else if text_eq p (codes "high") then 2 else 1

unfoldable pub is_evictable : Candidate → Bool
is_evictable c = c.ready && c.eviction_enabled && not (lt64 0 c.active_requests)

-- Behind priority and last use: the larger estimate, then the ids.
unfoldable pub size_before : Candidate → Candidate → Bool
size_before a b =
    if not (a.estimated_bytes == b.estimated_bytes)
    then lt64 b.estimated_bytes a.estimated_bytes
    else if not (text_eq a.model_id b.model_id)
    then text_lt a.model_id b.model_id
    else text_lt a.instance_id b.instance_id

unfoldable pub candidate_before : Candidate → Candidate → Bool
candidate_before a b =
    let ranks = priority_rank a.priority == priority_rank b.priority in
    if not ranks
    then ltb (priority_rank a.priority) (priority_rank b.priority)
    else if not (a.last_used == b.last_used)
    then if a.last_used == 0
      then true
      else if b.last_used == 0
      then false
      else ltb a.last_used b.last_used
    else size_before a b

-- Sorting by a total order is insertion sort here.
unfoldable pub insert_candidate : Candidate → List Candidate → List Candidate
insert_candidate c [] = c ∷ []
insert_candidate c (d ∷ ds) = if candidate_before d c then d ∷ insert_candidate c ds else c ∷ d ∷ ds

unfoldable pub sort_candidates : List Candidate → List Candidate
sort_candidates [] = []
sort_candidates (c ∷ cs) = insert_candidate c (sort_candidates cs)

unfoldable pub rank_eviction_candidates : List Candidate → List Candidate
rank_eviction_candidates candidates = sort_candidates (keep is_evictable candidates)

-- A resource that names a device and has bytes.
unfoldable pub is_counted : GpuResource → Bool
is_counted g = not (is_nil (trim_space g.device_id) || le64 g.bytes 0)

unfoldable pub sum_resources : Int64 → List GpuResource → Int64
sum_resources total [] = total
sum_resources total (g ∷ gpus) =
    sum_resources (if is_counted g then add64 total g.bytes else total) gpus

unfoldable pub candidate_gpu_bytes : Candidate → Int64
unfolding sum_resources
candidate_gpu_bytes c = sum_resources 0 c.resources.gpu

unfoldable pub plan_bytes_from : Int64 → Plan → List Candidate → Plan
plan_bytes_from required plan [] = plan
plan_bytes_from required plan (c ∷ cs) =
    let gpu_bytes = candidate_gpu_bytes c in
    let released = if le64 gpu_bytes 0 then c.estimated_bytes else gpu_bytes in
    let freed = if lt64 0 released then add64 plan.freed_bytes released else plan.freed_bytes in
    let evict = plan.evict ++ (c ∷ []) in
    let rest = plan_bytes_from required (record plan { evict = evict; freed_bytes = freed }) cs in
    if le64 required freed
    then record plan { evict = evict; freed_bytes = freed; fits = true }
    else rest

unfoldable pub plan_evictions_bytes : List Candidate → Int64 → Plan
plan_evictions_bytes candidates required =
    if le64 required 0
    then empty_plan true
    else plan_bytes_from required (empty_plan false) (rank_eviction_candidates candidates)

unfoldable pub credit_resources : List GpuResource → Map Int64 → Map Int64
credit_resources [] m = m
credit_resources (g ∷ gpus) m =
    let id = trim_space g.device_id in
    credit_resources gpus (if is_counted g then put id (add64 (lookup_or 0 id m) g.bytes) m else m)

unfoldable pub credit_bytes_from : Map Int64 → List Candidate → Map Int64
credit_bytes_from m [] = m
credit_bytes_from m (c ∷ cs) = credit_bytes_from (credit_resources c.resources.gpu m) cs

unfoldable pub host_credit_from : Int64 → List Candidate → Int64
host_credit_from total [] = total
host_credit_from total (c ∷ cs) =
    host_credit_from
      (if lt64 0 c.resources.host_ram_bytes then add64 total c.resources.host_ram_bytes else total)
      cs

unfoldable pub snapshot_with_candidate_credits : Snapshot → List Candidate → Snapshot
snapshot_with_candidate_credits snapshot selected =
    adjust_snapshot snapshot [] no_occupancy (credit_bytes_from [] selected)
      (host_credit_from 0 selected)

unfoldable pub apply_candidate_credits : Snapshot → List Candidate → Snapshot
apply_candidate_credits snapshot selected = snapshot_with_candidate_credits snapshot selected

unfoldable pub credited_gpus : List GpuResource → List GpuReservation
credited_gpus [] = []
credited_gpus (g ∷ gpus) =
    if is_counted g
    then record { device_id = trim_space g.device_id; bytes = g.bytes } ∷ credited_gpus gpus
    else credited_gpus gpus

unfoldable pub credits_from_candidates : List Candidate → List Credit
credits_from_candidates [] = []
credits_from_candidates (c ∷ cs) =
    if is_nil (trim_space c.instance_id)
    then credits_from_candidates cs
    else record {
      instance_id = c.instance_id;
      bytes = 0;
      gpus = credited_gpus c.resources.gpu;
      host_ram = c.resources.host_ram_bytes;
    }
      ∷ credits_from_candidates cs

-- Freed bytes by device, in the order in which the devices are met, and their sum. No device is
-- left out where the placement names none.
unfoldable pub free_resources : List Text → List GpuResource → Map Int64 × Int64 → Map Int64 × Int64
free_resources devices [] (freed, total) = (freed, total)
free_resources devices (g ∷ gpus) (freed, total) =
    let id = trim_space g.device_id in
    let counted = is_counted g && (is_nil devices || one_of id devices) in
    free_resources devices gpus (
      if counted then put id (add64 (lookup_or 0 id freed) g.bytes) freed else freed,
      if counted then add64 total g.bytes else total,
    )

unfoldable pub free_candidates : List Text → List Candidate → Map Int64 × Int64 → Map Int64 × Int64
free_candidates devices [] acc = acc
free_candidates devices (c ∷ cs) acc =
    free_candidates devices cs (free_resources devices c.resources.gpu acc)

unfoldable pub plan_from_selection : List Candidate → Placement → Bool → Plan
plan_from_selection selected placement fits =
    let (freed, total) = free_candidates placement.devices selected ([], 0) in
    record {
      evict = selected;
      freed_bytes = total;
      freed_host_ram_bytes = host_credit_from 0 selected;
      freed = map (λ e. record { device_id = e.0; bytes = e.1 }) freed;
      devices = placement.devices;
      fits = fits;
    }

unfoldable pub host_ram_fits : Snapshot → Int64 → Bool
host_ram_fits snapshot required =
    if le64 required 0 || (le64 snapshot.ram_total_bytes 0 && le64 snapshot.ram_available_bytes 0)
    then true
    else le64 required snapshot.ram_available_bytes
