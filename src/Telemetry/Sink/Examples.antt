-- ===== src/Telemetry/Sink/Examples.antt =====
-- A run of the sink, as in tests/test_sqs_sink.py: a queue of two, batches of ten, two attempts.
use dial_pass.Prelude.{
  ℕ, zero, suc, ◌+◌, ◌≤◌, ◌<◌, ◌≡◌, Bool, true, false, none, some, List, [], ◌∷◌, length,
}
use dial_pass.Telemetry.Sink.{new_sink, Client, drain}
use dial_pass.Telemetry.Sink.Accounts.{SinkEvent, given, pumped, run, total, every_event_counted}

abbrev first_fails : ℕ → Bool
first_fails zero = true
first_fails (suc i) = false

-- The first attempt raises, and the second fails for the first entry.
abbrev failing : Client
failing (suc zero) es = none
failing _ es = some first_fails

abbrev events : List SinkEvent
events =
    given (some "a")
    ∷ given (some "b")
    ∷ given (some "c")
    ∷ given none
    ∷ pumped failing
    ∷ given (some "d")
    ∷ []

every_event_counted_example :
    let s = run events (new_sink 2 10 2) in
    let t = drain (length s.waiting) (λ i. failing) s in
    (0 < 2 → length s.waiting ≤ 2)
    × (total s ≡ 4)
    × (length t.waiting ≡ 0)
    × (t.sent + t.dropped_send + t.dropped_overflow ≡ 4)
every_event_counted_example = every_event_counted 2 10 2 events (λ i. failing)
