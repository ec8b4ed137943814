-- ===== src/Tier2/Streaming.antt =====
-- `StreamingProbe` of src/dialpass/realtime/stream.py, behind the circuit breaker. What the exchange
-- on the media loop comes to is given.
use dial_pass.Prelude.{String, Option, List, ℕ, ◌≡◌, refl, true, false, if◌then◌else◌, arith}
use dial_pass.Breaker.{
  Error, Outcome, value, raised, is_exception, is_open, CircuitBreaker, state, call, settle,
  on_failure,
}
use dial_pass.Tier2.{ProbeOutcome, MenuDecision}

-- `StreamingProbe.probe`; an exchange that takes longer than 25 s has raised.
unfoldable pub probe_streamed : Outcome ProbeOutcome → Outcome ProbeOutcome
probe_streamed (raised e) = if is_exception e then raised Error.tier2_unavailable else raised e
probe_streamed (value o) = if o.healthy then value o else raised Error.tier2_unavailable

-- The protocol `Tier2`, over a world that its calls change.
pub record Tier2Client (Sample W : Type 0) : Type 0 where
  pub choose_menu_digit : List Sample → ℕ → Option String → W → Outcome MenuDecision × W
  pub probe : List Sample → ℕ → W → Outcome ProbeOutcome × W
  pub say_to_agent : String → W → W
  pub close : W → W

-- `StreamingProbe`: all but the probe is the client's that it wraps; `run_probe` is the exchange.
unfoldable pub streaming_probe :
    {Sample W : Type 0}
    → Tier2Client Sample W
    → (W → Outcome ProbeOutcome × W)
    → Tier2Client Sample W
unfolding probe_streamed
streaming_probe inner run_probe = record {
  choose_menu_digit = inner.choose_menu_digit;
  probe = λ audio sample_rate w. let (r, v) = run_probe w in (probe_streamed r, v);
  say_to_agent = inner.say_to_agent;
  close = inner.close;
}

admitted_failure :
    (now later : ℕ) (b : CircuitBreaker)
    → is_open (state now b).0 ≡ false
    → call {A = ProbeOutcome} now later (raised Error.tier2_unavailable) b
      ≡ (raised Error.tier2_unavailable, on_failure later (state now b).1)
unfolding call settle
admitted_failure now later b passed = rw passed refl

-- An exchange that failed is never taken for a verdict: the probe gives a verdict only if the exchange
-- gave that verdict and was well. And where the breaker lets the probe pass, an exchange that was not
-- well raises `Tier2Unavailable` and counts as a failure of the breaker.
pub failed_exchange_counts :
    (r : Outcome ProbeOutcome) (o : ProbeOutcome) (now later : ℕ) (b : CircuitBreaker)
    → (probe_streamed r ≡ value o → (r ≡ value o) × (o.healthy ≡ true))
      × (r ≡ value o
          → o.healthy ≡ false
          → is_open (state now b).0 ≡ false
          → call now later (probe_streamed r) b
            ≡ (raised Error.tier2_unavailable, on_failure later (state now b).1))
unfolding probe_streamed
failed_exchange_counts (raised e) o now later b = ground arith
failed_exchange_counts (value p) o now later b = (
  λ e. ground arith,
  λ e unwell passed.
      let sick : p.healthy ≡ false = ground arith in rw sick (admitted_failure now later b passed),
)
