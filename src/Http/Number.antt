-- ===== src/Http/Number.antt =====
-- `std::stoul` at base 10, as the standard documents it, which core-engine/src/protocols/http_sim.cpp
-- calls on the value of a Content-Length header; and the decimal digits of a number.
use network_simulator_platfo.Common.{
  ℕ, ◌+◌, ◌-◌, ◌*◌, ◌^◌, ◌%◌, Bool, false, ◌&&◌, ◌||◌, Option, none, some, [], ◌∷◌, ltb, leb, ◌==◌,
  if◌then◌else◌,
}
use network_simulator_platfo.Common.Words.{Bytes}

-- `isspace` in the C locale
abbrev pub is_space : ℕ → Bool
is_space c = c == 32 || (leb 9 c && leb c 13)

abbrev pub is_digit : ℕ → Bool
is_digit c = leb b'0' c && leb c b'9'

unfoldable pub skip_spaces : Bytes → Bytes
skip_spaces [] = []
skip_spaces (c ∷ cs) = if is_space c then skip_spaces cs else c ∷ cs

-- The number that the leading digits stand for, behind the digits already read.
unfoldable pub read_digits : ℕ → Bytes → ℕ
read_digits acc [] = acc
read_digits acc (c ∷ cs) =
    let rest = read_digits (acc * 10 + (c - b'0')) cs in if is_digit c then rest else acc

unfoldable pub starts_with_digit : Bytes → Bool
starts_with_digit [] = false
starts_with_digit (c ∷ cs) = is_digit c

-- `none` stands for `std::invalid_argument` and `std::out_of_range`.
unfoldable pub in_range : ℕ → Option ℕ
in_range n = if ltb n (2 ^ 64) then some n else none

unfoldable pub unsigned : Bytes → Option ℕ
unfolding in_range starts_with_digit read_digits
unsigned cs = if starts_with_digit cs then in_range (read_digits 0 cs) else none

-- A minus sign negates the number modulo 2 ^ 64.
unfoldable pub negated : Option ℕ → Option ℕ
negated none = none
negated (some n) = some ((2 ^ 64 - n) % 2 ^ 64)

unfoldable pub signed : Bytes → Option ℕ
unfolding unsigned negated
signed [] = none
signed (c ∷ cs) =
    if c == b'-'
    then negated (unsigned cs)
    else if c == b'+'
    then unsigned cs
    else unsigned (c ∷ cs)

unfoldable pub stoul : Bytes → Option ℕ
unfolding skip_spaces signed
stoul cs = signed (skip_spaces cs)
