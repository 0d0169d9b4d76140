-- ===== src/Scheduler/Attribution.antt =====
-- backend/internal/scheduler/eviction.go: the device bytes that are put down to a loaded instance.
pub mod Shares
use llama_rack.Base.{
  ℕ, ◌&&◌, ◌||◌, not, Option, none, some, List, [], ◌∷◌, ◌++◌, map, ◌==◌, if◌then◌else◌, is_nil,
  length,
}
use llama_rack.Base.Int64.{Int64, add64, sub64, lt64, le64}
use llama_rack.Base.Text.{Text, one_of, trim_space, split_comma}
use llama_rack.Base.Maps.{Map, lookup_or, put}
use llama_rack.Base.Float.{Float64}
use llama_rack.Hardware.{Gpu, GpuProcess}
use llama_rack.Scheduler.Placement.{
  sum_floats, equal_weights, valid_weight, head_weight, tail_weights,
}
use llama_rack.Scheduler.Capacity.{GpuReservation}
use llama_rack.Scheduler.Eviction.{GpuResource, CandidateResources}

pub record ResourceAttribution : Type 0 where
  pub estimated_bytes : Int64
  pub host_ram_bytes : Int64
  pub devices : List Text
  pub tensor_split : Text
  pub lease_gpus : List GpuReservation
  pub pid : Int64
  pub processes : List GpuProcess
  pub snapshot_gpus : List Gpu

unfoldable pub clean_from : List Text → List Text → List Text
clean_from out [] = out
clean_from out (raw ∷ rest) =
    let id = trim_space raw in
    clean_from (if is_nil id || one_of id out then out else out ++ (id ∷ [])) rest

-- The ids, trimmed, without the empty ones, each once.
unfoldable pub clean_device_ids : List Text → List Text
unfolding clean_from
clean_device_ids devices = clean_from [] devices

unfoldable pub lease_ids : List GpuReservation → List Text
lease_ids [] = []
lease_ids (g ∷ gpus) =
    let id = trim_space g.device_id in if is_nil id then lease_ids gpus else id ∷ lease_ids gpus

unfoldable pub reserved_device_ids : List Text → List GpuReservation → List Text
reserved_device_ids configured lease =
    let devices = clean_device_ids configured in
    if is_nil devices then clean_device_ids (lease_ids lease) else devices

unfoldable pub observe : Int64 → Map Int64 → List GpuProcess → Map Int64
observe pid m [] = m
observe pid m (p ∷ processes) =
    let id = trim_space p.device_id in
    let counted = p.pid == pid && not (is_nil id || le64 p.used_bytes 0) in
    observe pid (if counted then put id (add64 (lookup_or 0 id m) p.used_bytes) m else m) processes

unfoldable pub resources_of : Map Int64 → List GpuResource
resources_of m = map (λ e. record { device_id = e.0; bytes = e.1 }) m

unfoldable pub observed_process_gpus : Int64 → List GpuProcess → List GpuResource
observed_process_gpus pid processes =
    if le64 pid 0 then [] else resources_of (observe pid [] processes)

unfoldable pub gpu_resources_from_lease : List GpuReservation → List GpuResource
gpu_resources_from_lease [] = []
gpu_resources_from_lease (g ∷ gpus) =
    let id = trim_space g.device_id in
    let rest = gpu_resources_from_lease gpus in
    if is_nil id || le64 g.bytes 0 then rest else record { device_id = id; bytes = g.bytes } ∷ rest

-- The largest reservation of each device.
unfoldable pub largest_leases : Map Int64 → List GpuReservation → Map Int64
largest_leases m [] = m
largest_leases m (g ∷ gpus) =
    let id = trim_space g.device_id in
    let larger = not (is_nil id || le64 g.bytes 0) && lt64 (lookup_or 0 id m) g.bytes in
    largest_leases (if larger then put id g.bytes m else m) gpus

-- The devices of the lease that were not observed.
unfoldable pub unobserved_ids : List Text → List GpuReservation → List Text
unobserved_ids have [] = []
unobserved_ids have (g ∷ gpus) =
    let id = trim_space g.device_id in
    let skipped = is_nil id || le64 g.bytes 0 || one_of id have in
    let rest = unobserved_ids have gpus in if skipped then rest else id ∷ rest

-- Observed bytes are raised to the lease's.
unfoldable pub raise_to_lease : Map Int64 → GpuResource → GpuResource
raise_to_lease lease g =
    let bytes = lookup_or 0 g.device_id lease in
    if lt64 g.bytes bytes then record g { bytes = bytes } else g

-- The devices that were not observed: those with a lease, with its bytes, and the missing ones.
unfoldable pub fill_from_lease : List Text → Map Int64 → List Text → List GpuResource × List Text
fill_from_lease have lease [] = ([], [])
fill_from_lease have lease (id ∷ ids) =
    let bytes = lookup_or 0 id lease in
    let seen = one_of id have in
    let leased = lt64 0 bytes in
    let (filled, missing) =
      fill_from_lease (if not seen && leased then id ∷ have else have) lease ids in
    if seen
    then (filled, missing)
    else if leased
    then (record { device_id = id; bytes = bytes } ∷ filled, missing)
    else (filled, id ∷ missing)

unfoldable pub positive_sum : Int64 → List GpuResource → Int64
positive_sum total [] = total
positive_sum total (g ∷ gpus) =
    positive_sum (if lt64 0 g.bytes then add64 total g.bytes else total) gpus

module _ (fl : Float64) where
  open fl use {F, constant, of_int, to_int, mul, div, le}

  -- The weights of a split, or none where a value is not usable.
  unfoldable pub usable_weights : List Text → Option (List F)
  usable_weights [] = some []
  usable_weights (raw ∷ parts) =
      let part = trim_space raw in
      let rest = usable_weights parts in
      if is_nil part then rest else elim (valid_weight fl part) [
        | none ↦ none
        | some x ↦ elim rest [ none ↦ none | some xs ↦ some (x ∷ xs) ]
      ]

  unfoldable pub tensor_split_weights : Text → ℕ → List F
  tensor_split_weights tensor_split count = elim (usable_weights (split_comma tensor_split)) [
    | none ↦ []
    | some xs ↦ if length xs == count then xs else []
  ]

  unfoldable pub estimate_share : Int64 → F → F → Int64
  estimate_share total sum weight = to_int (div (mul (of_int total) weight) sum)

  -- A truncated share for each device, the rest for the last one.
  unfoldable pub split_over : Int64 → F → Int64 → List Text → List F → List GpuResource
  split_over total sum remaining [] weights = []
  split_over total sum remaining (id ∷ ids) weights =
      let share = estimate_share total sum (head_weight fl weights) in
      let bytes = if is_nil ids then remaining else share in
      record { device_id = id; bytes = bytes }
      ∷ split_over total sum (sub64 remaining bytes) ids (tail_weights fl weights)

  unfoldable pub split_estimate_across_devices : Int64 → List Text → Text → List GpuResource
  split_estimate_across_devices total raw tensor_split =
      let devices = clean_device_ids raw in
      let count = length devices in
      let given = tensor_split_weights tensor_split count in
      let usable = not (le (sum_floats fl (constant 0 1) given) (constant 0 1)) in
      let weights = if usable then given else equal_weights fl count in
      let sum = if usable then sum_floats fl (constant 0 1) given else of_int count in
      if le64 total 0 || is_nil devices
      then []
      else if count == 1
      then map (λ id. record { device_id = id; bytes = total }) devices
      else split_over total sum total devices weights

  unfoldable pub union_observed_with_reserved :
      List GpuResource → List Text → List GpuReservation → Int64 → Text → List GpuResource
  union_observed_with_reserved observed devices lease estimated tensor_split =
      let have = map (λ g. g.device_id) observed in
      let by_lease = largest_leases [] lease in
      let raised = map (raise_to_lease by_lease) observed in
      let (filled, missing) =
        fill_from_lease have by_lease (clean_device_ids (devices ++ unobserved_ids have lease)) in
      let out = raised ++ filled in
      let remaining = sub64 estimated (positive_sum 0 out) in
      if is_nil missing || le64 estimated 0
      then out
      else if lt64 remaining 1
      then out
      else out ++ split_estimate_across_devices remaining missing tensor_split

  unfoldable pub attribute_resources : ResourceAttribution → CandidateResources
  attribute_resources input =
      let devices = reserved_device_ids input.devices input.lease_gpus in
      let observed = observed_process_gpus input.pid input.processes in
      let only : List GpuResource = elim input.snapshot_gpus [
        | [] ↦ []
        | g ∷ gpus ↦
            let id = trim_space g.id in
            if is_nil gpus && not (is_nil id) && lt64 0 input.estimated_bytes
            then record { device_id = id; bytes = input.estimated_bytes } ∷ []
            else []
      ] in
      record {
        host_ram_bytes = input.host_ram_bytes;
        gpu =
            if not (is_nil observed)
            then union_observed_with_reserved observed devices input.lease_gpus
                input.estimated_bytes input.tensor_split
            else if not (is_nil devices)
            then if lt64 0 input.estimated_bytes
              then split_estimate_across_devices input.estimated_bytes devices input.tensor_split
              else gpu_resources_from_lease input.lease_gpus
            else only;
      }
