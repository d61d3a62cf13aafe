-- ===== src/Common/Decimal.antt =====
-- `std::to_string` of an unsigned number.
use Prim.Native.Nat.{ℕ, zero, suc, ◌+◌, ◌/◌, ◌%◌, ◌≤◌, ◌<◌}
use mathlib.Core.Path.{◌≡◌}
use mathlib.Core.List.{List, [], ◌∷◌}
use native.Mathlib.Omega.{arith}
use network_simulator_platfo.Common.Tests.{ltb, if◌then◌else◌}

-- The digits of n in front of those already written; each round writes one.
unfoldable pub write_digits : ℕ → ℕ → List ℕ → List ℕ
write_digits zero n written = written
write_digits (suc fuel) n written =
    let digit = b'0' + n % 10 in
    let rest = write_digits fuel (n / 10) (digit ∷ written) in
    if ltb n 10 then digit ∷ written else rest

-- A number has at most as many digits as it counts, and one.
unfoldable pub to_decimal : ℕ → List ℕ
unfolding write_digits
to_decimal n = write_digits (suc n) n []

pub to_decimal_one : (n : ℕ) → n < 10 → to_decimal n ≡ (b'0' + n) ∷ []
unfolding to_decimal
to_decimal_one n h = ground arith

pub to_decimal_two :
    (n : ℕ) → 10 ≤ n → n < 100 → to_decimal n ≡ (b'0' + n / 10) ∷ (b'0' + n % 10) ∷ []
unfolding to_decimal
to_decimal_two zero h k = absurd (omega arith)
to_decimal_two (suc n) h k = ground arith

pub to_decimal_three :
    (n : ℕ)
    → 100 ≤ n
    → n < 1000
    → to_decimal n ≡ (b'0' + n / 100) ∷ (b'0' + n / 10 % 10) ∷ (b'0' + n % 10) ∷ []
unfolding to_decimal
to_decimal_three zero h k = absurd (omega arith)
to_decimal_three (suc zero) h k = absurd (omega arith)
to_decimal_three (suc (suc n)) h k = ground arith
