-- ===== src/Base/Int64.antt =====
-- Go's `int64`, and `int` on a 64-bit host: a value is its bit pattern, a number below 2 ^ 64, and
-- stands for itself if it is below 2 ^ 63 and for itself less 2 ^ 64 if not. Sums, differences and
-- products wrap; comparisons are signed; the quotient is truncated towards zero.
use llama_rack.Base.{
  ℕ, ◌+◌, ◌-◌, ◌*◌, ◌/◌, ◌%◌, ◌^◌, ◌<◌, ◌≡◌, Bool, arith, ltb, leb, if◌then◌else◌,
}

abbrev pub Int64 : Type 0
Int64 = ℕ

abbrev pub modulus : ℕ
modulus = 2 ^ 64

abbrev pub IsInt64 : Int64 → Type 0
IsInt64 a = a < 2 ^ 64

-- The pattern of a number that is zero or greater.
abbrev pub IsNonneg : Int64 → Type 0
IsNonneg a = a < 2 ^ 63

abbrev pub add64 : Int64 → Int64 → Int64
add64 a b = (a + b) % 2 ^ 64

abbrev pub sub64 : Int64 → Int64 → Int64
sub64 a b = (a + 2 ^ 64 - b) % 2 ^ 64

abbrev pub mul64 : Int64 → Int64 → Int64
mul64 a b = a * b % 2 ^ 64

-- Adding 2 ^ 63 turns the signed order into the order of the patterns.
abbrev pub lt64 : Int64 → Int64 → Bool
lt64 a b = ltb ((a + 2 ^ 63) % 2 ^ 64) ((b + 2 ^ 63) % 2 ^ 64)

abbrev pub le64 : Int64 → Int64 → Bool
le64 a b = leb ((a + 2 ^ 63) % 2 ^ 64) ((b + 2 ^ 63) % 2 ^ 64)

abbrev pub neg64 : Int64 → Int64
neg64 a = sub64 0 a

magnitude : Int64 → ℕ
magnitude a = if ltb a (2 ^ 63) then a else 2 ^ 64 - a

unfoldable pub div64 : Int64 → Int64 → Int64
unfolding magnitude
div64 a b =
    if ltb a (2 ^ 63)
    then if ltb b (2 ^ 63) then a / b else neg64 (a / magnitude b)
    else if ltb b (2 ^ 63)
    then neg64 (magnitude a / b)
    else magnitude a / magnitude b % 2 ^ 64

pub div64-nonneg : (a b : Int64) → IsNonneg a → IsNonneg b → div64 a b ≡ a / b
unfolding div64
div64-nonneg a b ha hb = ground arith

-- On numbers that are zero or greater the signed order is the order of the patterns.
pub lt64-nonneg : (a b : Int64) → IsNonneg a → IsNonneg b → lt64 a b ≡ ltb a b
lt64-nonneg a b ha hb = ground arith
