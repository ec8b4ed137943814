-- ===== src/Realtime/Heard.antt =====
-- The probe from the socket of stream.py through `StreamingProbe` and the circuit breaker.
use dial_pass.Prelude.{◌≡◌, ℕ, String, true, Option, some, List, arith}
use dial_pass.Prelude.Text.{concat}
use dial_pass.Audio.{Bytes}
use dial_pass.Breaker.{Outcome, value, raised, CircuitBreaker, call, settle}
use dial_pass.Tier2.{ProbeOutcome}
use dial_pass.Tier2.Streaming.{probe_streamed, failed_exchange_counts}
use dial_pass.Realtime.Verdict.{find_verdict}
use dial_pass.Realtime.Probe.{Arrival, started, probe_loop}
use dial_pass.Realtime.Listening.{probe_loop-IsGrounded}

-- The breaker makes up no value.
call-value :
    (now later : ℕ) (r : Outcome ProbeOutcome) (b : CircuitBreaker) (o : ProbeOutcome)
    → (call now later r b).0 ≡ value o
    → r ≡ value o
unfolding call settle
call-value now later (value p) b o e = ground arith
call-value now later (raised x) b o e = ground arith

-- Whatever arrives on the socket of the probe and whatever the breaker has seen, the session is told
-- of a human only if the text that the probe heard has the verdict of a human.
pub human_verdict_heard :
    (decoded : String → Option Bytes) (arrived : List Arrival) (now later : ℕ) (b : CircuitBreaker)
    (o : ProbeOutcome)
    → (call now later (probe_streamed (probe_loop decoded arrived started).0) b).0 ≡ value o
    → o.is_human ≡ true
    → find_verdict (concat (probe_loop decoded arrived started).1.texts) ≡ some true
human_verdict_heard decoded arrived now later b o e human =
    let r = (probe_loop decoded arrived started).0 in
    let streamed = call-value now later (probe_streamed r) b o e in
    let given = ((failed_exchange_counts r o now later b).0 streamed).0 in
    ((probe_loop-IsGrounded decoded arrived o given).0 human).0
