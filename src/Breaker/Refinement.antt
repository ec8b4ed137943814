-- ===== src/Breaker/Refinement.antt =====
-- The breaker against a specification by the history of the wrapped calls alone. Calls may overlap:
-- a history lists the atomic steps in the order in which the lock lets them through.
use mathlib.Core.Path.{subst}
use dial_pass.Prelude.{
  ℕ, suc, ◌+◌, ◌≤◌, ◌<◌, ◌≡◌, Bool, true, false, ◌&&◌, List, [], ◌∷◌, All, ltb, leb, arith,
  if◌then◌else◌,
}
use dial_pass.Breaker.{
  CircuitBreaker, BreakerState, Error, Outcome, value, raised, is_open, is_exception, new_breaker,
  state, on_success, on_failure, call,
}

-- `check` is the test at the start of `call`.
pub data Step : Type 0 where
  check : ℕ → Step
  succeeded : ℕ → Step
  broke : ℕ → Step

abbrev pub time : Step → ℕ
time (check t) = t
time (succeeded t) = t
time (broke t) = t

unfoldable pub step : Step → CircuitBreaker → CircuitBreaker
unfolding state on_success on_failure
step (check t) b = (state t b).1
step (succeeded t) b = on_success b
step (broke t) b = on_failure t b

-- Histories have the latest step first.
unfoldable pub after : CircuitBreaker → List Step → CircuitBreaker
unfolding step
after b [] = b
after b (s ∷ h) = step s (after b h)

-- The clock never runs backwards.
abbrev pub InOrder : List Step → Type 0
InOrder [] = Unit
InOrder (s ∷ h) = All (λ r. time r ≤ time s) h × InOrder h

-- The failures since the last success, and the time of the last failure.
abbrev pub failure_run : List Step → ℕ
failure_run [] = 0
failure_run (check t ∷ h) = failure_run h
failure_run (succeeded t ∷ h) = 0
failure_run (broke t ∷ h) = suc (failure_run h)

abbrev pub last_failure : List Step → ℕ
last_failure [] = 0
last_failure (check t ∷ h) = last_failure h
last_failure (succeeded t ∷ h) = last_failure h
last_failure (broke t ∷ h) = t

-- The specification: calls are refused from the failure that completes a run of `threshold`, for
-- `reset_timeout` from the last failure of the run.
abbrev pub refused : ℕ → ℕ → ℕ → List Step → Bool
refused threshold reset now h = leb threshold (failure_run h) && ltb now (last_failure h + reset)

module _ (threshold reset : ℕ) (pos : 0 < threshold) where
  record Agrees (b : CircuitBreaker) (h : List Step) : Type 0 where
    same_threshold : b.threshold ≡ threshold
    same_reset : b.reset_timeout ≡ reset
    counted : b.failures ≡ failure_run h
    shut : b.status ≡ BreakerState.closed → failure_run h < threshold
    tripped :
        b.status ≡ BreakerState.opened
        → (threshold ≤ failure_run h) × (b.opened_at ≡ last_failure h)
    trial :
        b.status ≡ BreakerState.half_open
        → (threshold ≤ failure_run h) × (b.opened_at ≡ last_failure h)

  step-Agrees :
      (s : Step) (h : List Step) (b : CircuitBreaker) → Agrees b h → Agrees (step s b) (s ∷ h)
  unfolding step
  step-Agrees (check t) h b a = ground arith
  step-Agrees (succeeded t) h b a = ground arith
  step-Agrees (broke t) h b a = ground arith

  after-Agrees : (h : List Step) → Agrees (after (new_breaker threshold reset) h) h
  unfolding after new_breaker
  after-Agrees [] = ground arith
  after-Agrees (s ∷ h) = step-Agrees s h (after (new_breaker threshold reset) h) (after-Agrees h)

  -- A half-open breaker was checked once its time was over, so it is over at every later time.
  half_open_late :
      (h : List Step) (now : ℕ)
      → InOrder h
      → All (λ r. time r ≤ now) h
      → (after (new_breaker threshold reset) h).status ≡ BreakerState.half_open
      → last_failure h + reset ≤ now
  unfolding after new_breaker
  half_open_late [] now o late e = cc e
  half_open_late (check t ∷ h) now o late e =
      ground (arith, after-Agrees h, half_open_late h now o.1 late.1)
  half_open_late (succeeded t ∷ h) now o late e = cc e
  half_open_late (broke t ∷ h) now o late e = ground (arith, after-Agrees h)

  -- Whatever calls have begun, succeeded and failed on a new breaker of a positive threshold, in the
  -- order of the clock, a call that begins no earlier is refused exactly when the specification
  -- refuses it.
  pub state-refines :
      (h : List Step) (now : ℕ)
      → InOrder h
      → All (λ r. time r ≤ now) h
      → is_open (state now (after (new_breaker threshold reset) h)).0
        ≡ refused threshold reset now h
  unfolding state
  state-refines h now o late = ground (arith, after-Agrees h, half_open_late h now o late)

-- A history with the steps of one more `call`.
abbrev pub call_steps : {A : Type 0} → ℕ → ℕ → Bool → Outcome A → List Step → List Step
call_steps now later true fn h = check now ∷ h
call_steps now later false (value v) h = succeeded later ∷ check now ∷ h
call_steps now later false (raised e) h =
    if is_exception e then broke later ∷ check now ∷ h else check now ∷ h

-- What the caller of one `call` gets.
abbrev pub call_result : {A : Type 0} → Bool → Outcome A → Outcome A
call_result true fn = raised Error.circuit_open
call_result false fn = fn

call_from :
    {A : Type 0} (now later : ℕ) (fn : Outcome A) (b : CircuitBreaker) (h : List Step)
    → let refuse = is_open (state now (after b h)).0 in
      call now later fn (after b h)
      ≡ (call_result refuse fn, after b (call_steps now later refuse fn h))
unfolding call step after
call_from now later (value v) b h = ground arith
call_from now later (raised e) b h = ground arith

-- A call that does not overlap another, on a new breaker of a positive threshold after any history in
-- the order of the clock: where the specification refuses it, it raises `CircuitOpenError` whatever
-- the function would do, and else it gives what the function gave. The breaker is then the one of the
-- history with the steps of the call: success and an `Exception` are counted, a refusal and a bare
-- `BaseException` are not.
pub call-steps :
    {A : Type 0} (threshold reset : ℕ) (now later : ℕ) (fn : Outcome A) (h : List Step)
    → 0 < threshold
    → InOrder h
    → All (λ r. time r ≤ now) h
    → let b = new_breaker threshold reset in
      let refuse = refused threshold reset now h in
      call now later fn (after b h)
      ≡ (call_result refuse fn, after b (call_steps now later refuse fn h))
call-steps threshold reset now later fn h pos o late =
    subst
      (λ refuse. call now later fn (after (new_breaker threshold reset) h) ≡ (
        call_result refuse fn,
        after (new_breaker threshold reset) (call_steps now later refuse fn h),
      ))
      (state-refines threshold reset pos h now o late)
      (call_from now later fn (new_breaker threshold reset) h)

abbrev pub IsCheck : Step → Type 0
IsCheck (check t) = Unit
IsCheck _ = ⊥

after-half_open :
    (b : CircuitBreaker) (h : List Step)
    → b.status ≡ BreakerState.half_open
    → All IsCheck h
    → (after b h).status ≡ BreakerState.half_open
unfolding after step state
after-half_open b [] e checks = e
after-half_open b (check t ∷ h) e checks = ground (arith, after-half_open b h e checks.1)
after-half_open b (succeeded t ∷ h) e checks = absurd checks.0
after-half_open b (broke t ∷ h) e checks = absurd checks.0

-- While the breaker is half open and no call has ended, every check lets its call pass, however
-- many calls were let pass before it.
pub half_open_admits_any :
    (b : CircuitBreaker) (h : List Step) (now : ℕ)
    → b.status ≡ BreakerState.half_open
    → All IsCheck h
    → is_open (state now (after b h)).0 ≡ false
unfolding state
half_open_admits_any b h now e checks = ground (arith, after-half_open b h e checks)
