-- ===== src/Backoff/Delay.antt =====
-- The bounds of a delay (core-engine/include/network/backoff.hpp).
use native.Mathlib.Nat.{mod-eq_of_lt}
use network_simulator_platfo.Common.{
  ℕ, suc, ◌-◌, ◌*◌, ◌^◌, ◌≤◌, ◌<◌, ◌≡◌, ap, ◌∙◌, some, min, arith,
}
use network_simulator_platfo.Backoff.{Backoff, shift_one, full_delay, calculate_delay}

shifted : (n : ℕ) → n < 32 → shift_one (suc n - 1) ≡ some (2 ^ n)
unfolding shift_one
shifted n small = ap shift_one {x = suc n - 1} {y = n} (omega arith) ∙ ground arith

full_delay-suc :
    (b : Backoff) (n : ℕ)
    → n < 32
    → b.base_ms * 2 ^ n < 2 ^ 64
    → full_delay b (suc n) ≡ some (min (b.base_ms * 2 ^ n) b.max_ms)
unfolding full_delay
full_delay-suc b n small fits =
    rw (shifted n small, full_delay) (ap (λ v. some (min v b.max_ms)) (mod-eq_of_lt fits))

drawn :
    (draw : ℕ → ℕ) (b : Backoff) (n delay : ℕ)
    → full_delay b (suc n) ≡ some delay
    → calculate_delay draw b (suc n) ≡ some (draw delay)
unfolding calculate_delay
drawn draw b n delay e = rw (e, calculate_delay) (ground arith)

-- Where the distribution draws no more than its bound, and the base delay doubled with each attempt
-- behind the first fits in 64 bits, each of the attempts 1 to 32 has a delay, and it is no longer
-- than the longest delay and than that doubled delay.
pub calculate_delay-bounds :
    (draw : ℕ → ℕ) (b : Backoff) (n : ℕ)
    → ((d : ℕ) → draw d ≤ d)
    → n < 32
    → b.base_ms * 2 ^ n < 2 ^ 64
    → (delay : ℕ) × (calculate_delay draw b (suc n) ≡ some delay)
      × (delay ≤ b.max_ms)
      × (delay ≤ b.base_ms * 2 ^ n)
calculate_delay-bounds draw b n within small fits =
    let d = min (b.base_ms * 2 ^ n) b.max_ms in
    (
      draw d,
      drawn draw b n d (full_delay-suc b n small fits),
      omega (arith, within d),
      omega (arith, within d),
    )
