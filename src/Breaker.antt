-- ===== src/Breaker.antt =====
-- The circuit breaker: core-engine/include/network/circuit_breaker.hpp and
-- core-engine/src/network/circuit_breaker.cpp. Its calls are modelled one at a time: `state_` is a
-- plain field, and the daemon reaches a breaker from one thread only.
pub mod Transitions
pub mod Runs
mod Tests
use network_simulator_platfo.Common.{
  ℕ, ◌-◌, ◌/◌, ◌^◌, Bool, true, false, List, [], ◌∷◌, ltb, leb, if◌then◌else◌,
}
use network_simulator_platfo.Common.Words.{add32}

pub data CircuitState : Type 0 where
  closed opened half_open : CircuitState

-- Times are readings of the steady clock in nanoseconds.
pub record CircuitBreaker : Type 0 where
  pub state : CircuitState
  pub failure_threshold : ℕ
  pub recovery_timeout_ms : ℕ
  pub failure_count : ℕ
  pub success_count : ℕ
  pub last_state_change_time : ℕ

-- The readings of the steady clock in one call, each named for the place that makes it; a place
-- that is not reached makes none.
pub record Readings : Type 0 where
  -- in `get_state`, for the time elapsed
  pub checked : ℕ
  -- in the `transition_to` that `get_state` calls
  pub probed : ℕ
  -- in the `transition_to` that `record_success` or `record_failure` calls
  pub settled : ℕ

-- `CircuitBreaker(failure_threshold, recovery_timeout_ms)`
unfoldable pub make : ℕ → ℕ → ℕ → CircuitBreaker
make threshold timeout now = record {
  state = closed;
  failure_threshold = threshold;
  recovery_timeout_ms = timeout;
  failure_count = 0;
  success_count = 0;
  last_state_change_time = now;
}

-- `CircuitBreaker()`
unfoldable pub make_default : ℕ → CircuitBreaker
unfolding make
make_default now = make 3 5000 now

-- `transition_to`, at a reading of the clock.
unfoldable pub transition_to : CircuitBreaker → CircuitState → ℕ → CircuitBreaker
transition_to b new_state now = record b {
  state = new_state;
  failure_count = 0;
  success_count = 0;
  last_state_change_time = now;
}

-- `elapsed >= static_cast<long long>(recovery_timeout_ms_)`: from 2 ^ 63 on the cast gives a
-- negative number, which every elapsed time exceeds. The steady clock never goes back, so that a reading
-- before the last change, where the difference stops at 0 here, is none that it makes.
unfoldable pub timed_out : CircuitBreaker → ℕ → Bool
timed_out b now =
    if ltb b.recovery_timeout_ms (2 ^ 63)
    then leb b.recovery_timeout_ms ((now - b.last_state_change_time) / 1000000)
    else true

-- `get_state`, which also moves an open breaker whose timeout has passed.
unfoldable pub get_state : CircuitBreaker → Readings → CircuitBreaker
unfolding transition_to timed_out
get_state b r = elim b.state [
  | opened ↦ if timed_out b r.checked then transition_to b half_open r.probed else b
  | _ ↦ b
]

-- `record_success` behind its call of `get_state`.
unfoldable pub count_success : CircuitBreaker → ℕ → CircuitBreaker × Bool
unfolding transition_to
count_success b now = elim b.state [
  | half_open ↦
      let counted = record b { success_count = add32 b.success_count 1 } in
      if leb 3 (add32 b.success_count 1)
      then (transition_to counted closed now, true)
      else (counted, false)
  | closed ↦ (record b { failure_count = 0 }, false)
  | opened ↦ (b, false)
]

unfoldable pub record_success : CircuitBreaker → Readings → CircuitBreaker × Bool
record_success b r = count_success (get_state b r) r.settled

-- `record_failure` behind its call of `get_state`.
unfoldable pub count_failure : CircuitBreaker → ℕ → CircuitBreaker × Bool
unfolding transition_to
count_failure b now = elim b.state [
  | closed ↦
      let counted = record b { failure_count = add32 b.failure_count 1 } in
      if leb b.failure_threshold (add32 b.failure_count 1)
      then (transition_to counted opened now, true)
      else (counted, false)
  | half_open ↦ (transition_to b opened now, true)
  | opened ↦ (b, false)
]

unfoldable pub record_failure : CircuitBreaker → Readings → CircuitBreaker × Bool
record_failure b r = count_failure (get_state b r) r.settled

-- The calls of a breaker's user.
pub data Call : Type 0 where
  success failure query : Readings → Call

unfoldable pub step : CircuitBreaker → Call → CircuitBreaker
step b (success r) = (record_success b r).0
step b (failure r) = (record_failure b r).0
step b (query r) = get_state b r

unfoldable pub run : CircuitBreaker → List Call → CircuitBreaker
run b [] = b
run b (c ∷ cs) = run (step b c) cs
