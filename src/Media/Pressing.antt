-- ===== src/Media/Pressing.antt =====
-- How src/dialpass/api/media.py presses the keys that a bridge asks for, `_wire_dtmf`.
use dial_pass.Prelude.{String, Option, none, some, [], ◌++◌, false}
use dial_pass.Xml.Quote.{Text, points}
use dial_pass.Bridge.{CallBridge}
use dial_pass.Telephony.Twilio.{TwilioClient, press_keys}

abbrev pub reconnect_url : Text → Text → Text
reconnect_url base group = base ++ (points "/twiml/voice?group=" ++ group)

module _ {W : Type 0} where
  abbrev pub after_press : CallBridge → W → Option W → CallBridge × W
  after_press b w none = (record b { reconnecting = false }, w)
  after_press b w (some v) = (b, v)

  -- The `dtmf_redirect` that `_wire_dtmf` gives a bridge: it asks Twilio, and takes the reconnection back
  -- where Twilio raises. Without a client or a public address the bridge keeps the one that does
  -- nothing.
  unfoldable pub dtmf_redirect :
      Option (TwilioClient W) → Text → Text → String → Text → CallBridge → W → CallBridge × W
  dtmf_redirect none base group call_id digits b w = (b, w)
  dtmf_redirect (some twilio) [] group call_id digits b w = (b, w)
  dtmf_redirect (some twilio) base group call_id digits b w =
      after_press b w (press_keys twilio call_id digits (reconnect_url base group) w)
