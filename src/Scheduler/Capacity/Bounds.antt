-- ===== src/Scheduler/Capacity/Bounds.antt =====
-- backend/internal/scheduler/reservation.go: what a placement reserves, and what leases leave over.
use llama_rack.Base.{
  ℕ, ◌≡◌, refl, ap, List, [], ◌∷◌, map, arith, ◌<◌, ◌≤◌, ◌^◌, ◌+◌, ◌-◌, if◌then◌else◌,
}
use llama_rack.Base.Int64.{Int64, IsNonneg, sub64, lt64}
use llama_rack.Base.Text.{Text}
use llama_rack.Hardware.{Gpu}
use llama_rack.Scheduler.Demand.{at_least_zero}
use llama_rack.Scheduler.Capacity.{GpuReservation, Occupancy, fill_devices, adjust_gpu}

abbrev pub reserved_ids : List GpuReservation → List Text
reserved_ids = map (λ g. g.device_id)

abbrev pub total_reserved : List GpuReservation → ℕ
total_reserved [] = 0
total_reserved (g ∷ gpus) = g.bytes + total_reserved gpus

-- What a device takes.
abbrev taken_of : Int64 → Int64 → Int64
taken_of remaining usable = at_least_zero (if lt64 remaining usable then remaining else usable)

taken_of-le :
    (remaining usable : Int64)
    → IsNonneg remaining
    → IsNonneg usable
    → taken_of remaining usable ≤ remaining
taken_of-le remaining usable h u = ground arith

left_over :
    (remaining taken : Int64)
    → IsNonneg remaining
    → taken ≤ remaining
    → at_least_zero (sub64 remaining taken) ≡ remaining - taken
left_over remaining taken h k = ground arith

last_takes_all :
    (remaining taken : Int64)
    → IsNonneg remaining
    → taken ≤ remaining
    → (if lt64 taken remaining then remaining else taken) ≡ remaining
last_takes_all remaining taken h k = ground arith

-- The bytes are reserved on the devices in order, and they add up to the required bytes, without
-- wrapping around, whatever the devices can hold.
pub fill_devices_total :
    (usable : Text → Int64) (remaining : Int64) (id : Text) (ids : List Text)
    → IsNonneg remaining
    → ((device : Text) → IsNonneg (usable device))
    → (reserved_ids (fill_devices usable remaining (id ∷ ids)) ≡ id ∷ ids)
      × (total_reserved (fill_devices usable remaining (id ∷ ids)) ≡ remaining)
unfolding fill_devices
fill_devices_total usable remaining id [] h u =
    let last = last_takes_all remaining _ h (taken_of-le remaining (usable id) h (u id)) in
    (refl, omega (arith, last))
fill_devices_total usable remaining id (next ∷ ids) h u =
    let taken = taken_of remaining (usable id) in
    let le = taken_of-le remaining (usable id) h (u id) in
    let left = left_over remaining taken h le in
    let rest =
      fill_devices_total usable (at_least_zero (sub64 remaining taken)) next ids
        (omega (arith, left)) u in
    (ap (◌∷◌ id) rest.0, omega (arith, rest.1, left, le))

-- The adjusted record of a GPU of known size, whose used bytes are at most its size, where
-- all amounts are below 2 ^ 60: its free bytes are what its size
-- leaves over the bytes of all leases and the bytes that are in use beyond the committed leases and
-- the credit, and 0 where those exceed its size; its free and its used bytes add up to its size.
pub adjust_gpu_exact :
    (gpu : Gpu) (occ : Occupancy) (credit : Int64)
    → gpu.total_bytes < 2 ^ 60
    → 0 < gpu.total_bytes
    → gpu.used_bytes ≤ gpu.total_bytes
    → occ.pending < 2 ^ 60
    → occ.committed < 2 ^ 60
    → credit < 2 ^ 60
    → let adjusted = adjust_gpu gpu occ credit in
      let others = gpu.used_bytes - (occ.committed + credit) in
      (adjusted.free_bytes ≡ gpu.total_bytes - (occ.pending + occ.committed + others))
      × (adjusted.free_bytes + adjusted.used_bytes ≡ gpu.total_bytes)
unfolding adjust_gpu
adjust_gpu_exact gpu occ credit a b c d e f = ground arith
