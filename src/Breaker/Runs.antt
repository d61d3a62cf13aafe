-- ===== src/Breaker/Runs.antt =====
-- How a breaker goes through its cycle over several calls.
use network_simulator_platfo.Common.{
  ℕ, ◌+◌, ◌-◌, ◌/◌, ◌^◌, ◌≤◌, ◌<◌, ◌≡◌, refl, true, List, [], ◌∷◌, map, arith, length, All,
}
use network_simulator_platfo.Breaker.{
  count_failure, count_success, CircuitState, closed, opened, CircuitBreaker, Readings, make,
  get_state, record_success, record_failure, Call, success, failure, query, step, run,
}

failures-run :
    (b : CircuitBreaker) (rs : List Readings)
    → b.state ≡ closed
    → b.failure_count + length rs < b.failure_threshold
    → b.failure_threshold < 2 ^ 32
    → run b (map failure rs) ≡ record b { failure_count = b.failure_count + length rs }
unfolding run step record_failure get_state count_failure
failures-run b [] s h small = ground arith
failures-run b (r ∷ rs) s h small =
    ground (arith, failures-run (record b { failure_count = b.failure_count + 1 }) rs)

-- A new breaker whose threshold is below 2 ^ 32 counts threshold - 1 failures in a row and stays closed;
-- the next failure reaches the threshold and opens it, at the time of that failure, with its counter
-- reset.
pub make-trips :
    (threshold timeout now : ℕ) (rs : List Readings) (r : Readings)
    → length rs + 1 ≡ threshold
    → threshold < 2 ^ 32
    → let b = make threshold timeout now in
      (run b (map failure rs) ≡ record b { failure_count = length rs })
      × (record_failure (run b (map failure rs)) r
          ≡ (record b { state = opened; last_state_change_time = r.settled }, true))
unfolding make record_failure get_state count_failure
make-trips threshold timeout now rs r h small =
    let f = failures-run (make threshold timeout now) rs (ground arith) (ground arith) small in
    ground (arith, f)

-- The reading that a call compares with the time of the last change.
abbrev pub reading : Call → ℕ
reading (success r) = r.checked
reading (failure r) = r.checked
reading (query r) = r.checked

abbrev pub elapsed_ms : CircuitBreaker → ℕ → ℕ
elapsed_ms b now = (now - b.last_state_change_time) / 1000000

-- Until its timeout, below 2 ^ 63, has passed an opened breaker is left as it is by all calls: it
-- stays opened and counts nothing.
pub run_opened :
    (b : CircuitBreaker) (cs : List Call)
    → b.state ≡ opened
    → b.recovery_timeout_ms < 2 ^ 63
    → All (λ c. elapsed_ms b (reading c) < b.recovery_timeout_ms) cs
    → run b cs ≡ b
unfolding run step record_failure get_state count_failure record_success count_success
run_opened b [] s small h = refl
run_opened b (success r ∷ cs) s small h = ground (arith, run_opened b cs s small h.1)
run_opened b (failure r ∷ cs) s small h = ground (arith, run_opened b cs s small h.1)
run_opened b (query r ∷ cs) s small h = ground (arith, run_opened b cs s small h.1)

-- Once its timeout, below 2 ^ 63, has passed, an opened breaker lets probes through: three successes
-- close it with its counters reset, and a failure after at most two successes opens it again, for a
-- new timeout.
pub run_recovery :
    (b : CircuitBreaker) (r₁ r₂ r₃ : Readings)
    → b.state ≡ opened
    → b.recovery_timeout_ms < 2 ^ 63
    → b.recovery_timeout_ms ≤ elapsed_ms b r₁.checked
    → let back = λ (s : CircuitState) (now : ℕ). record b {
      state = s;
      failure_count = 0;
      success_count = 0;
      last_state_change_time = now;
    } in
      (run b (success r₁ ∷ success r₂ ∷ success r₃ ∷ []) ≡ back closed r₃.settled)
      × (run b (failure r₁ ∷ []) ≡ back opened r₁.settled)
      × (run b (success r₁ ∷ failure r₂ ∷ []) ≡ back opened r₂.settled)
      × (run b (success r₁ ∷ success r₂ ∷ failure r₃ ∷ []) ≡ back opened r₃.settled)
unfolding run step record_failure get_state count_failure record_success count_success
run_recovery b r₁ r₂ r₃ s small late = ground arith
