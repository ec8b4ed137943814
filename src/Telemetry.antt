-- ===== src/Telemetry.antt =====
-- src/dialpass/telemetry: the events of a call, the sinks that take them, and the stores of the worker.
pub mod Events
pub mod Publisher
pub mod Sink
pub mod Store
