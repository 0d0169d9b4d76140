-- ===== src/Scheduler/Capacity.antt =====
-- backend/internal/scheduler/reservation.go: the capacity that leases leave over, and the bytes that
-- a placement reserves on each GPU.
pub mod Bounds
use llama_rack.Base.{Bool, ◌&&◌, ◌||◌, List, [], ◌∷◌, map, if◌then◌else◌, is_nil}
use llama_rack.Base.Int64.{Int64, add64, sub64, lt64, le64}
use llama_rack.Base.Text.{Text, trim_space}
use llama_rack.Base.Maps.{Map, lookup_or}
use llama_rack.Hardware.{Gpu, Snapshot, no_gpu}
use llama_rack.Scheduler.Demand.{GpuResourceDemand, at_least_zero}
use llama_rack.Scheduler.Placement.{Placement, PlacementRequest, default_vram_reserve}
use llama_rack.Scheduler.Placement.Gpus.{usable_vram, by_id}

pub record GpuReservation : Type 0 where
  pub device_id : Text
  pub bytes : Int64

-- The pending and the committed bytes of a device, or of the host.
pub record Occupancy : Type 0 where
  pub pending : Int64
  pub committed : Int64

abbrev pub no_occupancy : Occupancy
no_occupancy = record { pending = 0; committed = 0 }

unfoldable pub occupy : Bool → Int64 → Occupancy → Occupancy
occupy is_pending bytes o =
    if is_pending
    then record o { pending = add64 o.pending bytes }
    else record o { committed = add64 o.committed bytes }

-- The available host memory where the total is known.
unfoldable pub ram_from_total : Int64 → Int64 → Occupancy → Int64 → Int64
ram_from_total total available host credit =
    let used = at_least_zero (sub64 total available) in
    let unmanaged = at_least_zero (sub64 (sub64 used host.committed) credit) in
    at_least_zero (sub64 (sub64 (sub64 total host.pending) host.committed) unmanaged)

unfoldable pub adjusted_ram : Snapshot → Occupancy → Int64 → Int64
adjusted_ram snapshot host credit =
    let total = snapshot.ram_total_bytes in
    let available = snapshot.ram_available_bytes in
    if lt64 0 total
    then ram_from_total total available host credit
    else if lt64 0 available
    then at_least_zero (add64 (sub64 (sub64 available host.pending) host.committed) credit)
    else available

unfoldable pub adjust_gpu : Gpu → Occupancy → Int64 → Gpu
adjust_gpu gpu occ credit =
    let unmanaged = at_least_zero (sub64 (sub64 gpu.used_bytes occ.committed) credit) in
    let managed = add64 occ.pending occ.committed in
    let free = at_least_zero (sub64 (sub64 gpu.total_bytes managed) unmanaged) in
    if lt64 0 gpu.total_bytes
    then record gpu { free_bytes = free; used_bytes = sub64 gpu.total_bytes free }
    else record gpu {
      free_bytes =
          at_least_zero (add64 (sub64 (sub64 gpu.free_bytes occ.pending) occ.committed) credit);
    }

unfoldable pub adjust_snapshot : Snapshot → Map Occupancy → Occupancy → Map Int64 → Int64 → Snapshot
adjust_snapshot snapshot occupancy host credit_bytes host_credit = record snapshot {
  ram_available_bytes = adjusted_ram snapshot host host_credit;
  gpus =
      map
        (λ gpu.
          adjust_gpu gpu (lookup_or no_occupancy gpu.id occupancy)
            (lookup_or 0 gpu.id credit_bytes))
        snapshot.gpus;
}

unfoldable pub demanded_reservations : List GpuResourceDemand → List GpuReservation
demanded_reservations [] = []
demanded_reservations (d ∷ demands) =
    if is_nil (trim_space d.device_id) || lt64 d.bytes 0
    then demanded_reservations demands
    else record { device_id = d.device_id; bytes = d.bytes } ∷ demanded_reservations demands

-- Each device takes what it can of the bytes that remain, and the last one all of them.
unfoldable pub fill_devices : (Text → Int64) → Int64 → List Text → List GpuReservation
fill_devices usable remaining [] = []
fill_devices usable remaining (id ∷ ids) =
    let fitting = if lt64 remaining (usable id) then remaining else usable id in
    let taken = at_least_zero fitting in
    let own = if is_nil ids && lt64 taken remaining then remaining else taken in
    record { device_id = id; bytes = own }
    ∷ fill_devices usable (at_least_zero (sub64 remaining own)) ids

unfoldable pub reservations_for : Placement → Snapshot → PlacementRequest → List GpuReservation
reservations_for placement snapshot request =
    let required = at_least_zero request.required_bytes in
    let reserve =
      if le64 request.reserve_bytes 0 then default_vram_reserve else request.reserve_bytes in
    let gpus = by_id snapshot.gpus in
    let filled =
      fill_devices (λ id. usable_vram (lookup_or no_gpu id gpus) reserve) required
        placement.devices in
    if is_nil placement.devices
    then []
    else if is_nil placement.device_demand
    then elim placement.devices [
      | [] ↦ []
      | id ∷ ids ↦ if is_nil ids then record { device_id = id; bytes = required } ∷ [] else filled
    ]
    else demanded_reservations placement.device_demand
