-- ===== src/Tier2/Examples.antt =====
-- A probe whose exchange has failed, on a breaker that trips after two failures.
use dial_pass.Prelude.{◌≡◌, true, false}
use dial_pass.Breaker.{
  Error, Outcome, value, raised, is_open, CircuitBreaker, new_breaker, state, call, on_failure,
}
use dial_pass.Tier2.{ProbeOutcome}
use dial_pass.Tier2.Streaming.{probe_streamed, failed_exchange_counts}

abbrev timed_out : ProbeOutcome
timed_out = record { is_human = false; transcript = ""; healthy = false }

abbrev exchange : Outcome ProbeOutcome
exchange = value timed_out

abbrev fresh : CircuitBreaker
fresh = new_breaker 2 30

failed_exchange_counts_example :
    (probe_streamed exchange ≡ value timed_out → (exchange ≡ value timed_out) × (false ≡ true))
    × (exchange ≡ value timed_out
        → false ≡ false
        → is_open (state 3 fresh).0 ≡ false
        → call 3 4 (probe_streamed exchange) fresh
          ≡ (raised Error.tier2_unavailable, on_failure 4 (state 3 fresh).1))
failed_exchange_counts_example = failed_exchange_counts exchange timed_out 3 4 fresh
