-- ===== src/Base/Text.antt =====
-- What the code uses of Rust's strings: the print of a number, prefixes, lines, and the check of UTF-8.
use Prim.Native.Nat.{ℕ, zero, suc, ◌+◌, ◌/◌, ◌%◌}
use mathlib.Core.Bool.{Bool, true, false, ◌&&◌}
use mathlib.Core.Option.{Option, none, some}
use mathlib.Core.List.{List, [], ◌∷◌, ◌++◌}
use pzd.Base.Logic.{◌==◌, leb, ltb, if◌then◌else◌}
use pzd.Base.Lists.{take, length}
use pzd.Base.Octets.{Bytes, bytes_eq}

-- The decimal digits of a number, which `{}` prints; as many rounds as the number are enough.
unfoldable pub digits : ℕ → ℕ → Bytes
digits zero n = (b'0' + n % 10) ∷ []
digits (suc fuel) n =
    let rest = digits fuel (n / 10) in
    if n / 10 == 0 then (b'0' + n % 10) ∷ [] else rest ++ ((b'0' + n % 10) ∷ [])

unfoldable pub decimal : ℕ → Bytes
unfolding digits
decimal n = digits n n

unfoldable pub starts_with : Bytes → Bytes → Bool
unfolding bytes_eq
starts_with prefix text = bytes_eq (take (length prefix) text) prefix

-- `lines`: a line ends at a line feed, with the carriage return before it; what follows the last is a line if
-- it is not empty.
abbrev pub cons_first : {A : Type 0} → A → List (List A) → List (List A)
cons_first b [] = (b ∷ []) ∷ []
cons_first b (l ∷ ls) = (b ∷ l) ∷ ls

abbrev pub at_line_feed : Bytes → Bool
at_line_feed [] = false
at_line_feed (b ∷ bs) = b == 10

unfoldable pub lines : Bytes → List Bytes
lines [] = []
lines (b ∷ bs) =
    let rest = lines bs in
    if b == 10 then [] ∷ rest else if b == 13 && at_line_feed bs then rest else cons_first b rest

-- What the first byte of a character asks for: so many more bytes, the next of them between two bounds.
unfoldable pub utf8_first : ℕ → Option (ℕ × ℕ × ℕ)
utf8_first b =
    if ltb b 0x80
    then some (0, 0x80, 0xBF)
    else if ltb b 0xC2
    then none
    else if ltb b 0xE0
    then some (1, 0x80, 0xBF)
    else if b == 0xE0
    then some (2, 0xA0, 0xBF)
    else if b == 0xED
    then some (2, 0x80, 0x9F)
    else if ltb b 0xF0
    then some (2, 0x80, 0xBF)
    else if b == 0xF0
    then some (3, 0x90, 0xBF)
    else if ltb b 0xF4
    then some (3, 0x80, 0xBF)
    else if b == 0xF4
    then some (3, 0x80, 0x8F)
    else none

unfoldable pub utf8_loop : ℕ → ℕ → ℕ → Bytes → Bool
unfolding utf8_first
utf8_loop zero low high [] = true
utf8_loop (suc more) low high [] = false
utf8_loop zero low high (b ∷ bs) = elim (utf8_first b) [
  | none ↦ false
  | some (more, low, high) ↦ utf8_loop more low high bs
]
utf8_loop (suc more) low high (b ∷ bs) = elim (leb low b && leb b high) [
  | true ↦ utf8_loop more 0x80 0xBF bs
  | false ↦ false
]

-- `std::str::from_utf8` as a test.
unfoldable pub is_utf8 : Bytes → Bool
unfolding utf8_loop
is_utf8 bs = utf8_loop 0 0x80 0xBF bs
