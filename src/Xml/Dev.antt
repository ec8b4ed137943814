-- ===== src/Xml/Dev.antt =====
-- The documents of src/dialpass/api/voice.py for the tests of a developer: a phone tree and hold music.
use dial_pass.Prelude.{String, ◌||◌, ◌++◌, str_eq, if◌then◌else◌}
use dial_pass.Xml.Quote.{Text, points}
use dial_pass.Xml.Documents.{response_open, media_ws_url}

-- `test_ivr_twiml`
unfoldable pub test_ivr_twiml : Text → Text
test_ivr_twiml base =
    points
      "<?xml version=\"1.0\" encoding=\"UTF-8\"?><Response><Gather input=\"dtmf\" numDigits=\"1\" timeout=\"12\" action=\""
    ++ (base
        ++ points
            "/twiml/test-ivr-branch\"><Say>Thank you for calling Acme Corporation. For billing, press 1. For technical support, press 2. To speak with an agent, press 0.</Say></Gather><Say>We did not receive a selection. Goodbye.</Say></Response>")

-- The agent who picks up.
abbrev pub agent_body : String
agent_body =
    "<Say>Please hold while we connect you to the next available agent.</Say><Play loop=\"1\">http://demo.twilio.com/docs/classic.mp3</Play><Say voice=\"Polly.Matthew\">Hi there, thanks for holding. This is Mark on the support desk.</Say><Pause length=\"1\"/><Say voice=\"Polly.Matthew\">Can you hear me okay? Who am I speaking with today?</Say><Pause length=\"2\"/><Say voice=\"Polly.Matthew\">Hello? This is Mark, I'm still here. How can I help you?</Say><Pause length=\"2\"/><Say voice=\"Polly.Matthew\">Take your time — I'll stay on the line with you.</Say><Pause length=\"3\"/><Say voice=\"Polly.Matthew\">Okay, still holding for you here. Let me know when you're ready.</Say><Pause length=\"8\"/><Say>I can't hear anyone. I'll try back later. Goodbye.</Say>"

-- The queue that nobody leaves.
abbrev pub billing_body : String
billing_body =
    "<Say>You selected billing. All of our representatives are currently busy. Please continue to hold.</Say><Play loop=\"10\">http://demo.twilio.com/docs/classic.mp3</Play>"

-- `test_ivr_branch_twiml`, on the digit of the form, which is empty where there is none.
unfoldable pub test_ivr_branch_twiml : String → Text
test_ivr_branch_twiml digit =
    response_open
    ++ (points (if str_eq digit "0" || str_eq digit "2" then agent_body else billing_body)
        ++ points "</Response>")

-- `holdmusic_test_twiml`
unfoldable pub holdmusic_test_twiml : Text → Text
unfolding media_ws_url
holdmusic_test_twiml base =
    points "<?xml version=\"1.0\" encoding=\"UTF-8\"?><Response><Start><Stream url=\""
    ++ (media_ws_url base
        ++ points
            "\" track=\"outbound_track\"/></Start><Play loop=\"6\">http://demo.twilio.com/docs/classic.mp3</Play></Response>")
