-- ===== src/Breaker/Transitions.antt =====
-- Which states a call of the breaker can lead to, and what it counts on the way.
use network_simulator_platfo.Common.{
  ℕ, ◌^◌, ◌<◌, ◌≡◌, ◌≢◌, ◌⊎◌, ◌↔◌, Bool, true, false, List, [], ◌∷◌, arith,
}
use network_simulator_platfo.Breaker.{
  CircuitState, closed, opened, half_open, CircuitBreaker, Readings, make, get_state, count_success,
  count_failure, record_success, record_failure, Call, success, failure, query, step, run,
}

-- What holds of the counters between calls. A threshold of 0 acts as a threshold of 1.
pub record IsValid (b : CircuitBreaker) : Type 0 where
  pub failures_low : (b.failure_count ≡ 0) ⊎ (b.failure_count < b.failure_threshold)
  pub failures_closed : (b.state ≡ closed) ⊎ (b.failure_count ≡ 0)
  pub successes_low : b.success_count < 3
  pub successes_half_open : (b.state ≡ half_open) ⊎ (b.success_count ≡ 0)

-- The moves that one call may make.
abbrev pub may_move : CircuitState → CircuitState → Bool
may_move closed half_open = false
may_move opened closed = false
may_move _ _ = true

-- The rules that a call keeps, its configuration as it was.
abbrev Keeps : CircuitBreaker → CircuitBreaker → Type 0
Keeps b b' =
    IsValid b'
    × (b'.failure_threshold ≡ b.failure_threshold)
    × (b'.recovery_timeout_ms ≡ b.recovery_timeout_ms)

module _ (b : CircuitBreaker) (r : Readings) where
  query-IsValid : b.failure_threshold < 2 ^ 32 → IsValid b → Keeps b (get_state b r)
  unfolding get_state
  query-IsValid small v = ground arith

  success-IsValid : b.failure_threshold < 2 ^ 32 → IsValid b → Keeps b (record_success b r).0
  unfolding record_success get_state count_success
  success-IsValid small v = ground arith

  failure-IsValid : b.failure_threshold < 2 ^ 32 → IsValid b → Keeps b (record_failure b r).0
  unfolding record_failure get_state count_failure
  failure-IsValid small v = ground arith

  query-may_move : IsValid b → may_move b.state (get_state b r).state ≡ true
  unfolding get_state
  query-may_move v = ground arith

  success-may_move : IsValid b → may_move b.state (record_success b r).0.state ≡ true
  unfolding record_success get_state count_success
  success-may_move v = ground arith

  failure-may_move : IsValid b → may_move b.state (record_failure b r).0.state ≡ true
  unfolding record_failure get_state count_failure
  failure-may_move v = ground arith

  success_reports :
      ((record_success b r).1 ≡ true)
      ↔ (((record_success b r).0.state ≡ closed) × ((get_state b r).state ≢ closed))
  unfolding record_success count_success
  success_reports = (λ e. ground arith, λ e. ground arith)

  failure_reports :
      ((record_failure b r).1 ≡ true)
      ↔ (((record_failure b r).0.state ≡ opened) × ((get_state b r).state ≢ opened))
  unfolding record_failure count_failure
  failure_reports = (λ e. ground arith, λ e. ground arith)

-- Every call keeps a breaker valid, and its configuration as it was.
pub step-IsValid :
    (b : CircuitBreaker) (c : Call)
    → b.failure_threshold < 2 ^ 32
    → IsValid b
    → IsValid (step b c)
      × ((step b c).failure_threshold ≡ b.failure_threshold)
      × ((step b c).recovery_timeout_ms ≡ b.recovery_timeout_ms)
unfolding step
step-IsValid b (success r) small v = success-IsValid b r small v
step-IsValid b (failure r) small v = failure-IsValid b r small v
step-IsValid b (query r) small v = query-IsValid b r small v

-- A call on a valid breaker moves it only from closed to opened, from opened to half-open, and from
-- half-open back to one of the others, whatever the clock says.
pub step-may_move :
    (b : CircuitBreaker) (c : Call) → IsValid b → may_move b.state (step b c).state ≡ true
unfolding step
step-may_move b (success r) v = success-may_move b r v
step-may_move b (failure r) v = failure-may_move b r v
step-may_move b (query r) v = query-may_move b r v

-- `record_success` returns true exactly when it has closed the breaker, and `record_failure`
-- exactly when it has opened it, if also for another time.
pub record_reports :
    (b : CircuitBreaker) (r : Readings)
    → (((record_success b r).1 ≡ true)
        ↔ (((record_success b r).0.state ≡ closed) × ((get_state b r).state ≢ closed)))
      × (((record_failure b r).1 ≡ true)
          ↔ (((record_failure b r).0.state ≡ opened) × ((get_state b r).state ≢ opened)))
record_reports b r = (success_reports b r, failure_reports b r)

run-IsValid :
    (b : CircuitBreaker) (cs : List Call)
    → b.failure_threshold < 2 ^ 32
    → IsValid b
    → IsValid (run b cs)
unfolding run
run-IsValid b [] small v = v
run-IsValid b (c ∷ cs) small v =
    let k = step-IsValid b c small v in run-IsValid (step b c) cs (omega arith) k.0

-- After any calls on a new breaker its failures are below its threshold and its successes below
-- three, and each of the two is counted in one state only.
pub run-make-IsValid :
    (threshold timeout now : ℕ) (cs : List Call)
    → threshold < 2 ^ 32
    → IsValid (run (make threshold timeout now) cs)
unfolding make
run-make-IsValid threshold timeout now cs small =
    run-IsValid (make threshold timeout now) cs small (ground arith)
