-- ===== src/Scheduler/Placement/Gpus.antt =====
-- backend/internal/scheduler/placement.go: the GPUs in their order, and the weights of a split.
-- Sorting by a total order on usable bytes and ids is insertion sort here; the library's algorithm
-- gives the same list.
use llama_rack.Base.{
  ℕ, zero, suc, ◌+◌, ◌*◌, ◌/◌, ◌%◌, Bool, true, false, ◌&&◌, ◌||◌, List, [], ◌∷◌, map, ◌==◌, ltb,
  if◌then◌else◌,
}
use llama_rack.Base.Int64.{Int64, sub64, div64, lt64, neg64}
use llama_rack.Base.Text.{Text, codes, join_comma}
use llama_rack.Base.Maps.{Map, put}
use llama_rack.Hardware.{Gpu}

unfoldable pub usable_vram : Gpu → Int64 → Int64
usable_vram gpu reserve =
    let usable = sub64 gpu.free_bytes reserve in if lt64 usable 0 then 0 else usable

-- Strings are ordered by their bytes, which is the order by code points.
unfoldable pub text_lt : Text → Text → Bool
text_lt s [] = false
text_lt [] (b ∷ t) = true
text_lt (a ∷ s) (b ∷ t) = ltb a b || (a == b && text_lt s t)

-- The order of the candidates: most usable bytes first, then by id.
unfoldable pub gpu_before : Int64 → Gpu → Gpu → Bool
gpu_before reserve a b =
    let left = usable_vram a reserve in
    let right = usable_vram b reserve in
    if left == right then text_lt a.id b.id else lt64 right left

unfoldable pub insert_gpu : Int64 → Gpu → List Gpu → List Gpu
insert_gpu reserve g [] = g ∷ []
insert_gpu reserve g (h ∷ gpus) =
    if gpu_before reserve h g then h ∷ insert_gpu reserve g gpus else g ∷ h ∷ gpus

unfoldable pub sorted_gpus_by_usable : Int64 → List Gpu → List Gpu
sorted_gpus_by_usable reserve [] = []
sorted_gpus_by_usable reserve (g ∷ gpus) = insert_gpu reserve g (sorted_gpus_by_usable reserve gpus)

-- byID[gpu.ID] = gpu for each GPU: the last one of an id stays.
unfoldable pub by_id_from : Map Gpu → List Gpu → Map Gpu
by_id_from m [] = m
by_id_from m (g ∷ gpus) = by_id_from (put g.id g m) gpus

abbrev pub by_id : List Gpu → Map Gpu
by_id gpus = by_id_from [] gpus

-- The loop of `intString` over what is left of the value; the buffer holds 24 bytes.
unfoldable pub int_string_loop : ℕ → Int64 → Text → Text
int_string_loop zero value buffer = buffer
int_string_loop (suc room) value buffer =
    let rest = int_string_loop room (value / 10) ((b'0' + value % 10) ∷ buffer) in
    if lt64 0 value then rest else buffer

unfoldable pub int_string : Int64 → Text
int_string value =
    let negative = lt64 value 0 in
    let digits = int_string_loop 24 (if negative then neg64 value else value) [] in
    if value == 0 then codes "0" else if negative then b'-' ∷ digits else digits

abbrev pub split_unit : Int64
split_unit = 256 * 1024 * 1024

unfoldable pub split_weight : Int64 → Int64
split_weight value = let weight = div64 value split_unit in if lt64 weight 1 then 1 else weight

unfoldable pub tensor_split_for : List Int64 → Text
tensor_split_for bytes = join_comma (map (λ b. int_string (split_weight b)) bytes)
