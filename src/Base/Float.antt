-- ===== src/Base/Float.antt =====
-- Go's `float64` with the functions of the packages `math` and `strconv` that the program calls, as
-- a parameter: the type, its operations, and that a conversion to `int64` gives an `int64`.
use llama_rack.Base.{ℕ, Bool, Option}
use llama_rack.Base.Int64.{Int64, IsInt64}
use llama_rack.Base.Text.{Text}

pub record Float64 : Type 1 where
  pub F : Type 0
  -- The constant n / d of the source's text.
  pub constant : ℕ → ℕ → F
  pub of_int : Int64 → F
  pub to_int : F → Int64
  pub add : F → F → F
  pub mul : F → F → F
  pub div : F → F → F
  pub min : F → F → F
  pub ceil : F → F
  pub floor : F → F
  pub round : F → F
  pub lt : F → F → Bool
  pub le : F → F → Bool
  pub is_nan : F → Bool
  pub is_inf : F → Bool
  pub parse_float : Text → Option F
  pub to_int_lt : (x : F) → IsInt64 (to_int x)
