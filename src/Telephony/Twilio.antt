-- ===== src/Telephony/Twilio.antt =====
-- src/dialpass/telephony/twilio_client.py over the client of Twilio's library, which is a parameter: it
-- gives the sid of a call that it creates, and changes the world. What it raises ends the method.
use dial_pass.Prelude.{String, Option, none, some}
use dial_pass.Xml.Quote.{Text}
use dial_pass.Xml.Press.{press_digits}

-- `calls.create`, `messages.create` and `calls(sid).update`, `none` where they raise.
pub record Client (W : Type 0) : Type 0 where
  pub create_call : String → String → String → W → Option (String × W)
  pub create_message : String → String → String → W → Option W
  pub update_twiml : String → Text → W → Option W
  pub update_status : String → String → W → Option W

pub record PlacedCall : Type 0 where
  pub call_sid : String
  pub conference_name : String

pub record TwilioClient (W : Type 0) : Type 0 where
  pub client : Client W
  pub from_number : String

module _ {W : Type 0} (twilio : TwilioClient W) where
  abbrev placed : String → Option (String × W) → Option (PlacedCall × W)
  placed conference none = none
  placed conference (some (sid, w)) =
      some (record { call_sid = sid; conference_name = conference }, w)

  -- `place_outbound_call`
  unfoldable pub place_outbound_call : String → String → String → W → Option (PlacedCall × W)
  place_outbound_call to_number twiml_url conference_name w =
      placed conference_name (twilio.client.create_call to_number twilio.from_number twiml_url w)

  -- `ring_user`
  unfoldable pub ring_user : String → String → String → W → Option (PlacedCall × W)
  ring_user user_number twiml_url conference_name w =
      placed conference_name (twilio.client.create_call user_number twilio.from_number twiml_url w)

  -- `send_sms`
  unfoldable pub send_sms : String → String → W → Option W
  send_sms to_number body w = twilio.client.create_message to_number twilio.from_number body w

  -- `press_digits`
  unfoldable pub press_keys : String → Text → Text → W → Option W
  unfolding press_digits
  press_keys call_sid digits reconnect_url w =
      twilio.client.update_twiml call_sid (press_digits digits reconnect_url) w

  -- `hang_up`
  unfoldable pub hang_up : String → W → Option W
  hang_up call_sid w = twilio.client.update_status call_sid "completed" w
