-- ===== src/Scheduler/Placement.antt =====
-- backend/internal/scheduler/placement.go: which GPUs hold a worker.
pub mod Split
pub mod Auto
pub mod Single
pub mod Gpus
use llama_rack.Base.{
  ℕ, zero, suc, ◌+◌, ◌*◌, Bool, true, false, ◌&&◌, ◌||◌, not, Option, none, some, List, [], ◌∷◌,
  ◌++◌, ◌==◌, ltb, if◌then◌else◌, is_nil, length,
}
use llama_rack.Base.Int64.{Int64, add64, sub64, lt64, le64}
use llama_rack.Base.Text.{Text, codes, text_eq, one_of, to_lower, trim_space, split_comma}
use llama_rack.Base.Maps.{Map, lookup, lookup_or}
use llama_rack.Base.Float.{Float64}
use llama_rack.Hardware.{Gpu, Snapshot, no_gpu}
use llama_rack.Scheduler.Errors.{
  Result, ok, err, ◌>>=◌, required_bytes_negative, placement_mode_unknown, manual_device_missing,
  device_unavailable, manual_demand_negative, manual_demand_mismatch, split_without_device,
  split_wrong_count, split_value_invalid, split_without_positive,
}
use llama_rack.Scheduler.Demand.{GpuResourceDemand}
use llama_rack.Scheduler.Placement.Gpus.{
  by_id, sorted_gpus_by_usable, tensor_split_for, usable_vram,
}

abbrev pub default_vram_reserve : Int64
default_vram_reserve = 512 * 1024 * 1024

pub record PlacementRequest : Type 0 where
  pub required_bytes : Int64
  pub host_ram_bytes : Int64
  pub mode : Text
  pub devices : List Text
  pub tensor_split : Text
  pub reserve_bytes : Int64
  pub splittable_bytes : Int64
  pub fixed_bytes : Int64

pub record Placement : Type 0 where
  pub devices : List Text
  pub tensor_split : Text
  pub required_bytes : Int64
  pub available_bytes : Int64
  pub device_demand : List GpuResourceDemand
  pub fits : Bool

-- Placement{RequiredBytes: required, Fits: fits}.
abbrev pub bare_placement : Int64 → Bool → Placement
bare_placement required fits = record {
  devices = [];
  tensor_split = [];
  required_bytes = required;
  available_bytes = 0;
  device_demand = [];
  fits = fits;
}

unfoldable pub request_reserve : PlacementRequest → Int64
request_reserve request =
    if lt64 0 request.reserve_bytes then request.reserve_bytes else default_vram_reserve

-- The first GPU on which the request fits alone.
unfoldable pub first_adequate : Int64 → Int64 → List Gpu → Option Gpu
first_adequate reserve required [] = none
first_adequate reserve required (g ∷ gpus) =
    if required == 0 || le64 required (usable_vram g reserve)
    then some g
    else first_adequate reserve required gpus

-- What the spreading loop has gathered: devices, their bytes, and the weights of the split.
pub record Spread : Type 0 where
  pub devices : List Text
  pub available : Int64
  pub weights : List Int64
  pub fits : Bool

unfoldable pub spread_over : Int64 → Int64 → Spread → List Gpu → Spread
spread_over reserve required s [] = s
spread_over reserve required s (g ∷ gpus) =
    let usable = usable_vram g reserve in
    let available = add64 s.available usable in
    let devices = s.devices ++ (g.id ∷ []) in
    let weights = s.weights ++ (usable ∷ []) in
    let done : Spread = record {
      devices = devices;
      available = available;
      weights = weights;
      fits = true;
    } in
    let more =
      spread_over reserve required
        (if le64 usable 0 then s else record {
          devices = devices;
          available = available;
          weights = weights;
          fits = s.fits;
        })
        gpus in
    if le64 usable 0 then more else if le64 required available then done else more

abbrev pub no_spread : Spread
no_spread = record { devices = []; available = 0; weights = []; fits = false }

unfoldable pub auto_placement : PlacementRequest → Int64 → List Gpu → Placement
auto_placement request reserve gpus =
    let s = spread_over reserve request.required_bytes no_spread gpus in
    elim (first_adequate reserve request.required_bytes gpus) [
      | some g ↦ record {
        devices = g.id ∷ [];
        tensor_split = [];
        required_bytes = request.required_bytes;
        available_bytes = usable_vram g reserve;
        device_demand = [];
        fits = true;
      }
      | none ↦ record {
        devices = s.devices;
        tensor_split = if ltb 1 (length s.devices) then tensor_split_for s.weights else [];
        required_bytes = request.required_bytes;
        available_bytes = s.available;
        device_demand = [];
        fits = s.fits;
      }
    ]

-- The configured devices, trimmed and each once, and the sum of their usable bytes.
unfoldable pub manual_devices :
    Map Gpu → Int64 → List Text → Int64 → List Text → Result (List Text × Int64)
manual_devices gpus reserve devices available [] = ok (devices, available)
manual_devices gpus reserve devices available (raw ∷ rest) =
    let id = trim_space raw in
    elim (lookup id gpus) [
      | none ↦ err (device_unavailable id)
      | some g ↦
          let seen = one_of id devices in
          manual_devices gpus reserve (if seen then devices else devices ++ (id ∷ []))
            (if seen then available else add64 available (usable_vram g reserve)) rest
    ]

unfoldable pub all_fit : Map Gpu → Int64 → List GpuResourceDemand → Bool
all_fit gpus reserve [] = true
all_fit gpus reserve (d ∷ demands) =
    le64 d.bytes (usable_vram (lookup_or no_gpu d.device_id gpus) reserve)
    && all_fit gpus reserve demands

module _ (fl : Float64) where
  open fl use {
    F, constant, of_int, to_int, add, mul, div, floor, lt, le, is_nan, is_inf, parse_float,
  }

  unfoldable pub sum_floats : F → List F → F
  sum_floats total [] = total
  sum_floats total (x ∷ xs) = sum_floats (add total x) xs

  unfoldable pub equal_weights : ℕ → List F
  equal_weights zero = []
  equal_weights (suc n) = constant 1 1 ∷ equal_weights n

  unfoldable pub valid_weight : Text → Option F
  valid_weight part = elim (parse_float part) [
    | none ↦ none
    | some x ↦ if lt x (constant 0 1) || is_nan x || is_inf x then none else some x
  ]

  unfoldable pub strict_weights : List Text → Result (List F)
  strict_weights [] = ok []
  strict_weights (part ∷ parts) =
      let rest = strict_weights parts in
      elim (valid_weight (trim_space part)) [
        | none ↦ err (split_value_invalid (trim_space part))
        | some x ↦ rest >>= λ xs. ok (x ∷ xs)
      ]

  unfoldable pub strict_tensor_split_weights : Text → ℕ → Result (List F)
  strict_tensor_split_weights raw count =
      let parts = split_comma (trim_space raw) in
      let parsed = strict_weights parts >>= λ xs.
      if le (sum_floats (constant 0 1) xs) (constant 0 1)
      then err split_without_positive
      else ok xs in
      if count == 0
      then err split_without_device
      else if is_nil (trim_space raw)
      then ok (equal_weights count)
      else if length parts == count
      then parsed
      else err split_wrong_count

  -- weights[i]; the list is as long as the list of devices.
  abbrev pub head_weight : List F → F
  head_weight [] = constant 0 1
  head_weight (x ∷ xs) = x

  abbrev pub tail_weights : List F → List F
  tail_weights [] = []
  tail_weights (x ∷ xs) = xs

  -- The rounded share of a device that is not the last one.
  unfoldable pub device_share : Int64 → F → F → Int64
  device_share splittable sum weight =
      if lt64 0 splittable then to_int (floor (div (mul (of_int splittable) weight) sum)) else 0

  -- A share of the splittable bytes for each device, the rest for the last one; `extra` goes to the
  -- first one.
  unfoldable pub share_out : Int64 → F → Int64 → Int64 → List Text → List F → List GpuResourceDemand
  share_out splittable sum extra remaining [] weights = []
  share_out splittable sum extra remaining (id ∷ ids) weights =
      let own = device_share splittable sum (head_weight weights) in
      let share = if is_nil ids then remaining else own in
      let left = if is_nil ids then remaining else sub64 remaining own in
      record { device_id = id; bytes = add64 share extra }
      ∷ share_out splittable sum 0 left ids (tail_weights weights)

  unfoldable pub manual_placement_demand :
      PlacementRequest → List Text → Result (List GpuResourceDemand)
  manual_placement_demand request devices =
      let fixed = request.fixed_bytes in
      let splittable =
        if request.splittable_bytes == 0 && fixed == 0
        then request.required_bytes
        else request.splittable_bytes in
      if lt64 request.required_bytes 0 || lt64 request.splittable_bytes 0 || lt64 fixed 0
      then err manual_demand_negative
      else if add64 splittable fixed == request.required_bytes
      then (strict_tensor_split_weights request.tensor_split (length devices) >>= λ weights. ok (
          share_out splittable (sum_floats (constant 0 1) weights) fixed splittable devices
            weights))
      else err manual_demand_mismatch

  -- The placement on the configured devices, once they are known.
  unfoldable pub manual_on :
      PlacementRequest → Int64 → Map Gpu → List Text → Int64 → Result Placement
  manual_on request reserve gpus devices available =
      let required = request.required_bytes in
      let placement : List GpuResourceDemand → Bool → Placement = λ demand fits. record {
        devices = devices;
        tensor_split = trim_space request.tensor_split;
        required_bytes = required;
        available_bytes = available;
        device_demand = demand;
        fits = fits;
      } in
      let spread = manual_placement_demand request devices >>= λ demand.
      ok (placement demand (all_fit gpus reserve demand)) in
      elim devices [
        | id ∷ ids ↦
            if is_nil ids
            then ok (
                placement (record { device_id = id; bytes = required } ∷ [])
                  (required == 0 || le64 required (usable_vram (lookup_or no_gpu id gpus) reserve)))
            else spread
        | [] ↦ spread
      ]

  unfoldable pub plan_placement : Snapshot → PlacementRequest → Result Placement
  plan_placement snapshot request =
      let reserve =
        if le64 request.reserve_bytes 0 then default_vram_reserve else request.reserve_bytes in
      let given = to_lower (trim_space request.mode) in
      let mode = if is_nil given then codes "auto" else given in
      let gpus = by_id snapshot.gpus in
      let manual = manual_devices gpus reserve [] 0 request.devices >>= λ found.
      manual_on request reserve gpus found.0 found.1 in
      if lt64 request.required_bytes 0
      then err required_bytes_negative
      else if not (text_eq mode (codes "auto") || text_eq mode (codes "manual"))
      then err placement_mode_unknown
      else if is_nil snapshot.gpus
      then ok (bare_placement request.required_bytes (request.required_bytes == 0))
      else if text_eq mode (codes "manual")
      then if is_nil request.devices then err manual_device_missing else manual
      else ok (auto_placement request reserve (sorted_gpus_by_usable reserve snapshot.gpus))
