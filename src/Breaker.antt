-- ===== src/Breaker.antt =====
-- src/dialpass/resilience/circuit_breaker.py. The clock is read by the methods, so they take its
-- reading; the lock makes each of the methods below atomic, and not the wrapped call between them.
pub mod Refinement
mod Examples
use dial_pass.Prelude.{ℕ, ◌+◌, Bool, true, false, ◌||◌, leb, if◌then◌else◌}

-- What a wrapped call raised. `base_exception` is a `BaseException` that is no `Exception`.
pub data Error : Type 0 where
  circuit_open not_implemented tier2_unavailable other_error base_exception : Error

pub data Outcome {ℓ} (A : Type ℓ) : Type ℓ where
  value : A → Outcome A
  raised : Error → Outcome A

abbrev pub is_exception : Error → Bool
is_exception Error.base_exception = false
is_exception _ = true

pub data BreakerState : Type 0 where
  closed opened half_open : BreakerState

abbrev pub is_open : BreakerState → Bool
is_open BreakerState.opened = true
is_open _ = false

abbrev pub is_half_open : BreakerState → Bool
is_half_open BreakerState.half_open = true
is_half_open _ = false

pub record CircuitBreaker : Type 0 where
  pub threshold : ℕ
  pub reset_timeout : ℕ
  pub status : BreakerState
  pub failures : ℕ
  pub opened_at : ℕ

-- `__init__`
unfoldable pub new_breaker : ℕ → ℕ → CircuitBreaker
new_breaker threshold reset_timeout = record {
  threshold = threshold;
  reset_timeout = reset_timeout;
  status = BreakerState.closed;
  failures = 0;
  opened_at = 0;
}

-- The property `state`, which moves an open breaker to half open once its time is over.
unfoldable pub state : ℕ → CircuitBreaker → BreakerState × CircuitBreaker
state now b =
    let b' =
      (if is_open b.status
        then if leb (b.opened_at + b.reset_timeout) now
          then record b { status = BreakerState.half_open }
          else b
        else b) in
    (b'.status, b')

-- `_on_success`
unfoldable pub on_success : CircuitBreaker → CircuitBreaker
on_success b = record b { failures = 0; status = BreakerState.closed }

-- `_on_failure`
unfoldable pub on_failure : ℕ → CircuitBreaker → CircuitBreaker
on_failure now b =
    let b' = record b { failures = b.failures + 1 } in
    if is_half_open b'.status || leb b'.threshold b'.failures
    then record b' { status = BreakerState.opened; opened_at = now }
    else b'

-- The `try` of `call`, on what the wrapped function did.
unfoldable pub settle {ℓ} :
    {A : Type ℓ} → ℕ → Outcome A → CircuitBreaker → Outcome A × CircuitBreaker
unfolding on_success on_failure
settle later (value v) b = (value v, on_success b)
settle later (raised e) b = if is_exception e then (raised e, on_failure later b) else (raised e, b)

-- `call`, begun at `now`, with a function that ends at `later`. The function is run only where the
-- breaker lets the call pass: it is passed as what it would do.
unfoldable pub call {ℓ} :
    {A : Type ℓ} → ℕ → ℕ → Outcome A → CircuitBreaker → Outcome A × CircuitBreaker
unfolding state settle
call now later fn b =
    let (s, b') = state now b in
    if is_open s then (raised Error.circuit_open, b') else settle later fn b'
