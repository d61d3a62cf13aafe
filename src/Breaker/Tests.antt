-- ===== src/Breaker/Tests.antt =====
-- Runs of the breaker (core-engine/src/network/circuit_breaker.cpp) on concrete inputs.
use network_simulator_platfo.Common.{ℕ, ◌≡◌, refl, true, List, [], ◌∷◌, arith, map, inl, inr}
use network_simulator_platfo.Breaker.{
  CircuitBreaker, CircuitState, closed, opened, Readings, Call, success, failure, query, make, step,
  run, record_failure,
}
use network_simulator_platfo.Breaker.Transitions.{IsValid, may_move, step-may_move}
use network_simulator_platfo.Breaker.Runs.{make-trips, run_opened, run_recovery}

-- One reading for the whole of a call.
abbrev at : ℕ → Readings
at now = record { checked = now; probed = now; settled = now }

abbrev two_failures : CircuitBreaker
two_failures = record {
  state = closed;
  failure_threshold = 3;
  recovery_timeout_ms = 5000;
  failure_count = 2;
  success_count = 0;
  last_state_change_time = 0;
}

two_failures-IsValid : IsValid two_failures
two_failures-IsValid = record {
  failures_low = inr (omega arith);
  failures_closed = inl refl;
  successes_low = omega arith;
  successes_half_open = inr refl;
}

-- Opened at time 0.
abbrev tripped : CircuitBreaker
tripped = record two_failures { state = opened; failure_count = 0 }

step-may_move_example : may_move closed (step two_failures (failure (at 7))).state ≡ true
step-may_move_example = step-may_move two_failures (failure (at 7)) two_failures-IsValid

abbrev some_calls : List Call
some_calls = failure (at 1) ∷ success (at 2) ∷ failure (at 3) ∷ failure (at 4) ∷ query (at 5) ∷ []

make-trips_example :
    let b = make 3 5000 0 in
    (run b (map failure (at 1 ∷ at 2 ∷ [])) ≡ record b { failure_count = 2 })
    × (record_failure (run b (map failure (at 1 ∷ at 2 ∷ []))) (at 3)
        ≡ (record b { state = opened; last_state_change_time = 3 }, true))
make-trips_example = make-trips 3 5000 0 (at 1 ∷ at 2 ∷ []) (at 3) refl (omega arith)

run_opened_example : run tripped some_calls ≡ tripped
run_opened_example = run_opened tripped some_calls refl (omega arith) (ground arith)

run_recovery_example :
    let back = λ (s : CircuitState) (now : ℕ). record tripped {
      state = s;
      failure_count = 0;
      success_count = 0;
      last_state_change_time = now;
    } in
    let r₁ = at 5000000000 in
    let r₂ = at 5000000001 in
    let r₃ = at 5000000002 in
    (run tripped (success r₁ ∷ success r₂ ∷ success r₃ ∷ []) ≡ back closed 5000000002)
    × (run tripped (failure r₁ ∷ []) ≡ back opened 5000000000)
    × (run tripped (success r₁ ∷ failure r₂ ∷ []) ≡ back opened 5000000001)
    × (run tripped (success r₁ ∷ success r₂ ∷ failure r₃ ∷ []) ≡ back opened 5000000002)
run_recovery_example =
    run_recovery tripped (at 5000000000) (at 5000000001) (at 5000000002) refl (omega arith)
      (omega arith)
