-- ===== src/Gguf/Trim.antt =====
-- strings.TrimSpace and strings.ToLower on bytes: white space and capitals of Unicode in their UTF-8
-- form.
use llama_rack.Base.{ℕ, zero, suc, ◌+◌, Bool, ◌&&◌, ◌||◌, [], ◌∷◌, ◌==◌, leb, if◌then◌else◌, length}
use mathlib.Core.List.{reverse}
use llama_rack.Gguf.{Bytes}

ascii_space : ℕ → Bool
ascii_space c = (leb 9 c && leb c 13) || c == 32

-- The third byte of the spaces from U+2000 to U+203F.
general_space : ℕ → Bool
general_space c = (leb 0x80 c && leb c 0x8a) || c == 0xa8 || c == 0xa9 || c == 0xaf

two_bytes : ℕ → ℕ → Bool
two_bytes a b = a == 0xc2 && (b == 0x85 || b == 0xa0)

three_bytes : ℕ → ℕ → ℕ → Bool
unfolding general_space
three_bytes a b c =
    (a == 0xe1 && b == 0x9a && c == 0x80)
    || (a == 0xe2 && b == 0x80 && general_space c)
    || (a == 0xe2 && b == 0x81 && c == 0x9f)
    || (a == 0xe3 && b == 0x80 && c == 0x80)

-- Each round drops one space; the text is as long as the fuel at most.
drop_front : ℕ → Bytes → Bytes
unfolding ascii_space two_bytes three_bytes
drop_front zero s = s
drop_front (suc n) [] = []
drop_front (suc n) (a ∷ []) = if ascii_space a then [] else a ∷ []
drop_front (suc n) (a ∷ b ∷ []) =
    let rest = drop_front n (b ∷ []) in
    if ascii_space a then rest else if two_bytes a b then [] else a ∷ b ∷ []
drop_front (suc n) (a ∷ b ∷ c ∷ s) =
    let one = drop_front n (b ∷ c ∷ s) in
    let two = drop_front n (c ∷ s) in
    let three = drop_front n s in
    if ascii_space a
    then one
    else if two_bytes a b
    then two
    else if three_bytes a b c
    then three
    else a ∷ b ∷ c ∷ s

-- The same at the end of a text that is given in reverse.
drop_back : ℕ → Bytes → Bytes
unfolding ascii_space two_bytes three_bytes
drop_back zero s = s
drop_back (suc n) [] = []
drop_back (suc n) (a ∷ []) = if ascii_space a then [] else a ∷ []
drop_back (suc n) (a ∷ b ∷ []) =
    let rest = drop_back n (b ∷ []) in
    if ascii_space a then rest else if two_bytes b a then [] else a ∷ b ∷ []
drop_back (suc n) (a ∷ b ∷ c ∷ s) =
    let one = drop_back n (b ∷ c ∷ s) in
    let two = drop_back n (c ∷ s) in
    let three = drop_back n s in
    if ascii_space a
    then one
    else if two_bytes b a
    then two
    else if three_bytes c b a
    then three
    else a ∷ b ∷ c ∷ s

unfoldable pub trim_bytes : Bytes → Bytes
unfolding drop_front drop_back
trim_bytes s = let front = drop_front (length s) s in reverse (drop_back (length s) (reverse front))

-- strings.ToLower on the characters that it takes to an ASCII letter: the capitals, the capital I with a
-- dot and the Kelvin sign. The program compares lowered text with ASCII words only.
unfoldable pub lower_bytes : Bytes → Bytes
lower_bytes [] = []
lower_bytes (a ∷ []) = (if leb b'A' a && leb a b'Z' then a + 32 else a) ∷ []
lower_bytes (a ∷ b ∷ []) =
    let rest = lower_bytes (b ∷ []) in
    if a == 0xc4 && b == 0xb0
    then b'i' ∷ []
    else (if leb b'A' a && leb a b'Z' then a + 32 else a) ∷ rest
lower_bytes (a ∷ b ∷ c ∷ s) =
    let one = lower_bytes (b ∷ c ∷ s) in
    let two = lower_bytes (c ∷ s) in
    let three = lower_bytes s in
    if a == 0xc4 && b == 0xb0
    then b'i' ∷ two
    else if a == 0xe2 && b == 0x84 && c == 0xaa
    then b'k' ∷ three
    else (if leb b'A' a && leb a b'Z' then a + 32 else a) ∷ one
