-- ===== src/Realtime.antt =====
-- src/dialpass/realtime: the exchanges with the realtime model, over the messages that arrive on the
-- socket. The network is left out. A message that arrives is what it is read as; those sent are written
-- as JSON in Documents.
pub mod Reply
pub mod Exchange
pub mod Client
pub mod Upload
pub mod Keys
pub mod Phrases
pub mod Turn
pub mod Verdict
pub mod Probe
pub mod Listening
pub mod Heard
pub mod Feeder
pub mod Documents
pub mod Asking
mod Examples
