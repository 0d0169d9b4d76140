-- ===== src/Base/Text.antt =====
-- Go strings as lists of code points, with the functions of the packages `strings` and `strconv`
-- that the program calls.
use Prim.Native.Char.{code}
use Prim.Native.String.{String}
use mathlib.Core.List.{reverse}
use llama_rack.Base.{
  ℕ, zero, suc, ◌+◌, ◌-◌, ◌*◌, ◌/◌, ◌%◌, ◌^◌, ◌≤◌, ◌<◌, ◌≡◌, refl, ◌↔◌, Bool, true, false, ◌&&◌,
  ◌||◌, Option, none, some, List, [], ◌∷◌, ◌++◌, map, arith, ltb, leb, ◌==◌, if◌then◌else◌, ◌∙◌, ap,
  Bool-cases, inl, inr,
}
use native.Mathlib.Nat.{pow-suc}
use llama_rack.Base.Int64.{Int64}

abbrev pub Text : Type 0
Text = List ℕ

-- The code points of a literal. `String` has its own `[]` and `∷`.
abbrev pub codes : String → Text
codes String.[] = []
codes (String.◌∷◌ c s) = code c ∷ codes s

unfoldable pub text_eq : Text → Text → Bool
text_eq [] [] = true
text_eq (a ∷ s) (b ∷ t) = a == b && text_eq s t
text_eq _ _ = false

pub text_eq_iff : (s t : Text) → (text_eq s t ≡ true) ↔ (s ≡ t)
unfolding text_eq
text_eq_iff [] [] = ground arith
text_eq_iff [] (b ∷ t) = ground arith
text_eq_iff (a ∷ s) [] = ground arith
text_eq_iff (a ∷ s) (b ∷ t) = ground (arith, text_eq_iff s t)

pub text_eq_refl : (s : Text) → text_eq s s ≡ true
text_eq_refl s = (text_eq_iff s s).1 refl

-- unicode.IsSpace.
unfoldable pub is_space : ℕ → Bool
is_space c =
    (leb 9 c && leb c 13)
    || c == 32
    || c == 0x85
    || c == 0xa0
    || c == 0x1680
    || (leb 0x2000 c && leb c 0x200a)
    || c == 0x2028
    || c == 0x2029
    || c == 0x202f
    || c == 0x205f
    || c == 0x3000

-- The text without its leading characters that pass the test.
unfoldable pub drop_while : (ℕ → Bool) → Text → Text
drop_while p [] = []
drop_while p (c ∷ s) = if p c then drop_while p s else c ∷ s

-- strings.TrimSpace.
unfoldable pub trim_space : Text → Text
unfolding drop_while is_space
trim_space s = reverse (drop_while is_space (reverse (drop_while is_space s)))

-- unicode.ToLower on the characters that it takes to an ASCII letter: the capitals, the capital I
-- with a dot and the Kelvin sign. The program compares lowered text with ASCII words only.
unfoldable pub to_lower_rune : ℕ → ℕ
to_lower_rune c =
    if leb b'A' c && leb c b'Z'
    then c + 32
    else if c == 0x130
    then b'i'
    else if c == 0x212a
    then b'k'
    else c

-- strings.ToLower, read so.
unfoldable pub to_lower : Text → Text
unfolding to_lower_rune
to_lower s = map to_lower_rune s

-- strings.Split at a comma: the text before each comma, and what follows the last one.
unfoldable pub split_comma : Text → List Text
split_comma [] = [] ∷ []
split_comma (c ∷ s) = elim (split_comma s) [
  | [] ↦ (c ∷ []) ∷ []
  | part ∷ parts ↦ if c == b',' then [] ∷ part ∷ parts else (c ∷ part) ∷ parts
]

-- strings.Join with a comma.
unfoldable pub join_comma : List Text → Text
join_comma [] = []
join_comma (part ∷ []) = part
join_comma (part ∷ next ∷ parts) = part ++ (b',' ∷ join_comma (next ∷ parts))

is_digit : ℕ → Bool
is_digit c = leb b'0' c && leb c b'9'

-- Whether the text is one of the words.
unfoldable pub one_of : Text → List Text → Bool
one_of s [] = false
one_of s (word ∷ words) = text_eq s word || one_of s words

-- The number that the digits stand for, read on from `n`.
unfoldable pub scan_digits : ℕ → Text → Option ℕ
unfolding is_digit
scan_digits n [] = some n
scan_digits n (c ∷ s) = elim (is_digit c) [
  | true ↦ scan_digits (n * 10 + (c - b'0')) s
  | false ↦ none
]

scan_unsigned : Text → Option ℕ
unfolding scan_digits
scan_unsigned [] = none
scan_unsigned (c ∷ s) = scan_digits 0 (c ∷ s)

positive : Option ℕ → Option Int64
positive none = none
positive (some n) = if ltb n (2 ^ 63) then some n else none

negative : Option ℕ → Option Int64
negative none = none
negative (some n) = if leb n (2 ^ 63) then some ((2 ^ 64 - n) % 2 ^ 64) else none

-- strconv.ParseInt in base 10 and 64 bits; `none` is its error.
unfoldable pub parse_int : Text → Option Int64
unfolding scan_unsigned positive negative
parse_int [] = none
parse_int (c ∷ s) =
    if c == b'-'
    then negative (scan_unsigned s)
    else if c == b'+'
    then positive (scan_unsigned s)
    else positive (scan_unsigned (c ∷ s))

-- The digits of `n` before `out`; `fuel` is more than the number of digits.
unfoldable pub push_digits : ℕ → ℕ → Text → Text
push_digits zero n out = out
push_digits (suc fuel) n out =
    let rest = push_digits fuel (n / 10) ((b'0' + n % 10) ∷ out) in if n == 0 then out else rest

unfoldable pub format_natural : ℕ → Text
format_natural n = if n == 0 then b'0' ∷ [] else push_digits 24 n []

-- strconv.FormatInt in base 10.
unfoldable pub format_int : Int64 → Text
format_int v = if ltb v (2 ^ 63) then format_natural v else b'-' ∷ format_natural (2 ^ 64 - v)

scan_digit :
    (n d : ℕ) (s : Text) → d < 10 → scan_digits n ((b'0' + d) ∷ s) ≡ scan_digits (n * 10 + d) s
unfolding scan_digits
scan_digit n d s h = ground arith

pub scan-push_digits :
    (fuel n : ℕ) (out : Text)
    → n < 10 ^ fuel
    → scan_digits 0 (push_digits fuel n out) ≡ scan_digits n out
unfolding push_digits
scan-push_digits zero n out h = let e : n ≡ 0 = omega arith in rw e
scan-push_digits (suc fuel) n out h = elim (Bool-cases (n == 0)) [
  | inl done ↦ let e : n ≡ 0 = ground arith in rw e
  | inr more ↦ rw more (
      scan-push_digits fuel (n / 10) ((b'0' + n % 10) ∷ out) (omega (arith, pow-suc 10 fuel))
      ∙ scan_digit (n / 10) (n % 10) out (omega arith)
      ∙ ap (λ k. scan_digits k out) (omega arith))
]

abbrev StartsWithDigit : Text → Type 0
StartsWithDigit [] = ⊥
StartsWithDigit (c ∷ s) = (b'0' ≤ c) × (c ≤ b'9')

push_digits-StartsWithDigit :
    (fuel n c : ℕ) (out : Text)
    → b'0' ≤ c
    → c ≤ b'9'
    → StartsWithDigit (push_digits fuel n (c ∷ out))
unfolding push_digits
push_digits-StartsWithDigit zero n c out lo hi = (lo, hi)
push_digits-StartsWithDigit (suc fuel) n c out lo hi = elim (Bool-cases (n == 0)) [
  | inl done ↦ rw done (lo, hi)
  | inr more ↦ rw more (
      push_digits-StartsWithDigit fuel (n / 10) (b'0' + n % 10) (c ∷ out) (omega arith)
        (omega arith))
]

-- A text that starts with a digit is read as digits alone.
parse_int-digits :
    (s : Text) (n : ℕ)
    → StartsWithDigit s
    → scan_digits 0 s ≡ some n
    → n < 2 ^ 63
    → parse_int s ≡ some n
unfolding parse_int
parse_int-digits [] n h e lt = absurd h
parse_int-digits (c ∷ s) n h e lt = ground arith

push_digits-starts : (fuel n : ℕ) → 0 < n → StartsWithDigit (push_digits (suc fuel) n [])
unfolding push_digits
push_digits-starts fuel n h = elim (Bool-cases (n == 0)) [
  | inl done ↦ absurd (ground arith)
  | inr more ↦
      rw more
        (push_digits-StartsWithDigit fuel (n / 10) (b'0' + n % 10) [] (omega arith) (omega arith))
]

format_natural-starts : (n : ℕ) → StartsWithDigit (format_natural n)
unfolding format_natural
format_natural-starts n = elim (Bool-cases (n == 0)) [
  | inl done ↦ rw done (omega arith, omega arith)
  | inr more ↦ rw more (push_digits-starts 23 n (ground arith))
]

scan_nil : (n : ℕ) → scan_digits n [] ≡ some n
unfolding scan_digits
scan_nil n = refl

format_natural-scan : (n : ℕ) → n < 2 ^ 64 → scan_digits 0 (format_natural n) ≡ some n
unfolding format_natural
format_natural-scan n h = elim (Bool-cases (n == 0)) [
  | inl done ↦ let e : n ≡ 0 = ground arith in rw e (scan_digit 0 0 [] (omega arith) ∙ scan_nil 0)
  | inr more ↦ rw more (scan-push_digits 24 n [] (omega arith) ∙ scan_nil n)
]

-- Parsing what was printed gives the number back.
pub parse-format_int : (v : Int64) → v < 2 ^ 63 → parse_int (format_int v) ≡ some v
unfolding format_int
parse-format_int v h =
    let e : ltb v (2 ^ 63) ≡ true = ground arith in
    rw e (
      parse_int-digits (format_natural v) v (format_natural-starts v)
        (format_natural-scan v (omega arith)) h)
