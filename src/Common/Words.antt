-- ===== src/Common/Words.antt =====
-- Machine words: an unsigned word of w bits is a number below 2 ^ w, and arithmetic wraps.
use Prim.Native.Nat.{ℕ, ◌+◌, ◌*◌, ◌^◌, ◌%◌}
use mathlib.Core.List.{List}

-- A text or a byte string: the codes of its characters.
abbrev pub Bytes : Type 0
Bytes = List ℕ

abbrev pub u8_mod : ℕ
u8_mod = 256

abbrev pub u32_mod : ℕ
u32_mod = 2 ^ 32

abbrev pub u64_mod : ℕ
u64_mod = 2 ^ 64

-- `uint32_t` addition
abbrev pub add32 : ℕ → ℕ → ℕ
add32 a b = (a + b) % u32_mod

-- `uint64_t` and `size_t` addition
abbrev pub add64 : ℕ → ℕ → ℕ
add64 a b = (a + b) % u64_mod

abbrev pub mul64 : ℕ → ℕ → ℕ
mul64 a b = (a * b) % u64_mod
