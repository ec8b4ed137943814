-- ===== src/Xml.antt =====
-- src/dialpass/telephony/twiml.py and src/dialpass/api/voice.py: the documents that answer Twilio.
pub mod Quote
pub mod Reading
pub mod Documents
pub mod Urls
pub mod Press
pub mod Dev
mod Examples
