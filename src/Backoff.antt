-- ===== src/Backoff.antt =====
-- Exponential backoff with jitter: core-engine/include/network/backoff.hpp. What the random
-- distribution on the numbers from 0 to n draws is a parameter, and so is the state of the generator.
pub mod Delay
mod Tests
use network_simulator_platfo.Common.{ℕ, ◌-◌, ◌^◌, Option, none, some, min, leb, ◌==◌, if◌then◌else◌}
use network_simulator_platfo.Common.Words.{mul64}

-- `Backoff(base_ms, max_ms)`
pub record Backoff : Type 0 where
  pub base_ms : ℕ
  pub max_ms : ℕ

-- `1u << n`, on 32 bits: `none` where that is undefined.
unfoldable pub shift_one : ℕ → Option ℕ
shift_one n = if leb 32 n then none else some (2 ^ n)

-- The delay that the jitter is drawn from.
unfoldable pub full_delay : Backoff → ℕ → Option ℕ
full_delay b attempt = elim (shift_one (attempt - 1)) [
  | none ↦ none
  | some exp_factor ↦ some (min (mul64 b.base_ms exp_factor) b.max_ms)
]

-- `calculate_delay`
unfoldable pub calculate_delay : (ℕ → ℕ) → Backoff → ℕ → Option ℕ
calculate_delay draw b attempt =
    if attempt == 0
    then some 0
    else elim (full_delay b attempt) [ none ↦ none | some delay ↦ some (draw delay) ]
