-- ===== src/Backoff/Tests.antt =====
-- Runs of the backoff (core-engine/include/network/backoff.hpp) on concrete inputs.
use network_simulator_platfo.Common.{ℕ, ◌*◌, ◌/◌, ◌^◌, ◌≤◌, ◌≡◌, refl, some, none, arith}
use network_simulator_platfo.Backoff.{Backoff, calculate_delay, full_delay, shift_one}
use network_simulator_platfo.Backoff.Delay.{calculate_delay-bounds}

abbrev backoff : Backoff
backoff = record { base_ms = 100; max_ms = 5000 }

abbrev halved : ℕ → ℕ
halved n = n / 2

halved-le : (d : ℕ) → halved d ≤ d
halved-le d = omega arith

calculate_delay-bounds_example :
    (delay : ℕ) × (calculate_delay halved backoff 4 ≡ some delay)
    × (delay ≤ 5000)
    × (delay ≤ 100 * 2 ^ 3)
calculate_delay-bounds_example =
    calculate_delay-bounds halved backoff 3 halved-le (omega arith) (omega arith)

-- The shift of attempt 33 is undefined.
attempt_33 : calculate_delay halved backoff 33 ≡ none
unfolding calculate_delay full_delay shift_one
attempt_33 = refl
