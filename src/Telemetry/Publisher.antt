-- ===== src/Telemetry/Publisher.antt =====
-- src/dialpass/telemetry/publisher.py: the sinks of the offline pipeline, on the list of the events
-- that they keep. `LogSink` only writes to the log.
use dial_pass.Prelude.{String, List, [], ◌∷◌, ◌++◌, str_eq, if◌then◌else◌}
use dial_pass.Telemetry.Events.{
  Body, Event, frame_classified, state_changed, tier2_woken, dtmf_sent, probe_result,
  human_detected, bridge_started, call_completed, call_failed,
}

-- `Event.kind`
unfoldable pub kind : Body → String
kind (frame_classified label confidence) = "frame_classified"
kind (state_changed frm to) = "state_changed"
kind (tier2_woken reason) = "tier2_woken"
kind (dtmf_sent digits) = "dtmf_sent"
kind (probe_result is_human) = "probe_result"
kind human_detected = "human_detected"
kind bridge_started = "bridge_started"
kind (call_completed outcome) = "call_completed"
kind (call_failed reason) = "call_failed"

-- `NullSink.emit`
unfoldable pub discard : Event → List Event → List Event
discard e events = events

-- `CollectingSink.emit`
unfoldable pub collect : Event → List Event → List Event
collect e events = events ++ e ∷ []

-- `CollectingSink.of_kind`
unfoldable pub of_kind : String → List Event → List Event
unfolding kind
of_kind k [] = []
of_kind k (e ∷ es) = let rest = of_kind k es in if str_eq (kind e.body) k then e ∷ rest else rest
