-- ===== src/Telephony.antt =====
-- src/dialpass/telephony: the calls that the program makes of Twilio's library, and the recorder.
pub mod Twilio
pub mod Recorder
