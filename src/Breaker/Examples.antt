-- ===== src/Breaker/Examples.antt =====
-- Runs of the circuit breaker, as in tests/test_circuit_breaker.py.
use dial_pass.Prelude.{ℕ, ◌≡◌, refl, true, false, List, [], ◌∷◌, arith}
use dial_pass.Breaker.{CircuitBreaker, BreakerState, value, is_open, new_breaker, state, call}
use dial_pass.Breaker.Refinement.{
  Step, check, succeeded, broke, after, refused, call_steps, call_result, state-refines, call-steps,
}

abbrev outage : List Step
outage = check 12 ∷ broke 11 ∷ broke 10 ∷ succeeded 5 ∷ check 4 ∷ []

-- Two failures in a row trip a breaker of threshold 2 for 30 units of time.
tripped_after_two : is_open (state 40 (after (new_breaker 2 30) outage)).0 ≡ true
unfolding state after new_breaker
tripped_after_two = refl

state-refines_example :
    is_open (state 41 (after (new_breaker 2 30) outage)).0 ≡ refused 2 30 41 outage
state-refines_example = state-refines 2 30 (omega arith) outage 41 (omega arith) (omega arith)

call-steps_example : call {A = ℕ} 41 42 (value 3) (after (new_breaker 2 30) outage) ≡ (
  call_result {A = ℕ} false (value 3),
  after (new_breaker 2 30) (call_steps {A = ℕ} 41 42 false (value 3) outage),
)
call-steps_example =
    call-steps {A = ℕ} 2 30 41 42 (value 3) outage (omega arith) (omega arith) (omega arith)

abbrev trying : CircuitBreaker
trying = record (new_breaker 2 30) { status = BreakerState.half_open; failures = 2 }
