-- ===== src/Scheduler/Options.antt =====
-- backend/internal/scheduler/demand.go and runtime_plan.go: the launch options of a worker, a map
-- from names, with or without two leading dashes, to values.
use llama_rack.Base.{Bool, true, false, none, some, [], ◌∷◌, ◌++◌, if◌then◌else◌}
use llama_rack.Base.Int64.{Int64, le64}
use llama_rack.Base.Text.{Text, codes, one_of, to_lower, trim_space, parse_int}
use llama_rack.Base.Maps.{Map, lookup}

abbrev pub Options : Type 0
Options = Map Text

abbrev pub dashed : Text → Text
dashed key = codes "--" ++ key

-- A nil map reads like an empty one.
unfoldable pub option_value : Options → Text → Text
option_value options key = elim (lookup key options) [
  | some value ↦ value
  | none ↦ elim (lookup (dashed key) options) [ some value ↦ value | none ↦ [] ]
]

unfoldable pub option_present : Options → Text → Bool
option_present options key = elim (lookup key options) [
  | some value ↦ true
  | none ↦ elim (lookup (dashed key) options) [ some value ↦ true | none ↦ false ]
]

unfoldable pub option_enabled : Options → Text → Bool
option_enabled options key =
    one_of (to_lower (trim_space (option_value options key)))
      (codes "true" ∷ codes "1" ∷ codes "yes" ∷ codes "on" ∷ [])

unfoldable pub cache_element_bytes : Options → Text → Int64
cache_element_bytes options key =
    let value = to_lower (trim_space (option_value options key)) in
    if one_of value ([] ∷ [])
    then 2
    else if one_of value (codes "f32" ∷ [])
    then 4
    else if one_of value (codes "f16" ∷ codes "bf16" ∷ [])
    then 2
    else if one_of value (
        codes "q8_0"
        ∷ codes "q8_1"
        ∷ codes "q6_k"
        ∷ codes "q5_0"
        ∷ codes "q5_1"
        ∷ codes "q5_k"
        ∷ codes "q4_0"
        ∷ codes "q4_1"
        ∷ codes "q4_k"
        ∷ codes "q3_k"
        ∷ codes "q2_k"
        ∷ [])
    then 1
    else 2

unfoldable pub kv_on_gpu : Options → Bool → Bool
kv_on_gpu options cpu_only =
    if cpu_only
    then false
    else if one_of (to_lower (trim_space (option_value options (codes "no-kv-offload"))))
        (codes "true" ∷ codes "1" ∷ codes "yes" ∷ [])
    then false
    else true

unfoldable pub parse_context_option : Options → Int64
parse_context_option options =
    elim (parse_int (trim_space (option_value options (codes "ctx-size")))) [
      | none ↦ 0
      | some value ↦ if le64 value 0 then 0 else value
    ]
