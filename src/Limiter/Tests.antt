-- ===== src/Limiter/Tests.antt =====
-- Runs of the limiter (core-engine/include/network/rate_limiter.hpp) on concrete inputs.
use network_simulator_platfo.Common.{
  ◌+◌, ◌*◌, ◌≤◌, ◌<◌, ◌≡◌, ◌↔◌, refl, ap, true, false, List, [], ◌∷◌, arith, length, replicate,
}
use network_simulator_platfo.Limiter.{GcraRateLimiter, admit, allow, allow_all}
use network_simulator_platfo.Limiter.Threads.{
  Event, arrives, tries, run, start, step, attempt, set_thread,
}
use network_simulator_platfo.Limiter.Rate.{rate_bound}
use network_simulator_platfo.Limiter.Burst.{burst, rounds-allow, Returned, rounds}

-- Ten nanoseconds apart, with a tolerance of twenty.
abbrev ten : GcraRateLimiter
ten = record { emission_interval_ns = 10; tolerance_ns = 20; tat_ns = 0 }

-- Two threads, of which the second loses the race once.
abbrev race : List Event
race = arrives 0 100 ∷ arrives 1 105 ∷ tries 0 false ∷ tries 1 false ∷ tries 1 false ∷ []

race_passed : (run (start ten) race).passed ≡ 105 ∷ 100 ∷ []
unfolding run start step attempt admit set_thread
race_passed = refl

rate_bound_example : 100 + 1 * 10 ≤ 105 + 20
rate_bound_example =
    rate_bound ten race 100 105 1 (omega arith) (ground arith) (ap length race_passed)

burst_example :
    let (passed, l') = allow_all ten (replicate 3 100) in
    (passed ≡ replicate 3 true) × (((allow l' 100).1 ≡ false) ↔ (20 < 3 * 10))
burst_example = burst ten 100 2 (omega arith) (omega arith) (omega arith)

rounds-allow_example :
    Returned 0 100 (start ten) (run (start ten) (arrives 0 100 ∷ rounds 0 100 2)) (allow ten 100)
unfolding start
rounds-allow_example = rounds-allow 0 100 (start ten) 2 refl
