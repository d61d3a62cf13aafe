-- ===== src/Limiter/Threads.antt =====
-- The loop of `GcraRateLimiter::allow` (core-engine/include/network/rate_limiter.hpp) in any number
-- of threads, which run in any order, one access to `tat_ns_` at a time. A weak compare-and-swap
-- may fail though the value is the expected one.
use network_simulator_platfo.Common.{
  ℕ, Bool, not, ◌&&◌, none, some, List, [], ◌∷◌, ◌==◌, if◌then◌else◌,
}
use network_simulator_platfo.Limiter.{GcraRateLimiter, admit}

-- A thread outside `allow`, or in its loop with the time and `current_tat`.
pub data Thread : Type 0 where
  idle : Thread
  trying : ℕ → ℕ → Thread

pub record Shared : Type 0 where
  pub limiter : GcraRateLimiter
  pub threads : ℕ → Thread
  -- the times of the calls that have returned true, the latest return first
  pub passed : List ℕ
  -- the times of the calls that have returned false
  pub refused : List ℕ

unfoldable pub set_thread : Shared → ℕ → Thread → Shared
set_thread s i th = record s { threads = λ j. if j == i then th else s.threads j }

pub data Event : Type 0 where
  -- thread i calls `allow` at time t, and loads `tat_ns_`
  arrives : ℕ → ℕ → Event
  -- thread i makes one round of the loop; the flag is a spurious failure
  tries : ℕ → Bool → Event

-- One round of the loop.
unfoldable pub attempt : Shared → ℕ → ℕ → ℕ → Bool → Shared
attempt s i t current_tat spurious =
    let tat = s.limiter.tat_ns in
    elim (admit s.limiter t current_tat) [
      | none ↦ record (set_thread s i idle) { refused = t ∷ s.refused }
      | some new_tat ↦
          if tat == current_tat && not spurious
          then record (set_thread s i idle) {
            limiter = record limiter { tat_ns = new_tat };
            passed = t ∷ s.passed;
          }
          else set_thread s i (trying t tat)
    ]
  where
    open s use {limiter}

-- A thread that is in the loop does not arrive again, and one that is outside makes no round.
unfoldable pub step : Shared → Event → Shared
step s (arrives i t) = elim (s.threads i) [
  | idle ↦ set_thread s i (trying t s.limiter.tat_ns)
  | trying _ _ ↦ s
]
step s (tries i spurious) = elim (s.threads i) [
  | idle ↦ s
  | trying t current_tat ↦ attempt s i t current_tat spurious
]

unfoldable pub run : Shared → List Event → Shared
run s [] = s
run s (e ∷ es) = run (step s e) es

-- All threads outside `allow`.
unfoldable pub start : GcraRateLimiter → Shared
start l = record { limiter = l; threads = λ _. idle; passed = []; refused = [] }
