-- ===== src/Fallback.antt =====
-- src/dialpass/resilience/fallback.py: the text that the user gets when a call cannot be finished.
use dial_pass.Prelude.{String, Option, none, some, [], ◌∷◌}
use dial_pass.Prelude.Dict.{Dict, lookup}

-- _DEFAULT
abbrev pub default_message : String
default_message =
    "DialPass couldn't finish that call. Sorry about that — give it another try in a bit."

abbrev tier2_message : String
tier2_message =
    "DialPass is having trouble with the part that listens to the menu right now. The call was ended — please try again shortly."

-- _BY_REASON
abbrev pub by_reason : Dict String
by_reason =
    ("tier2_unavailable", tier2_message)
    ∷ ("tier2_circuit_open", tier2_message)
    ∷ (
      "non_connect",
      "That number went to voicemail or didn't connect, so DialPass hung up. Double-check the number and try again.",
    )
    ∷ (
      "dropped",
      "The call to that number dropped and DialPass couldn't get back through. Please try again.",
    )
    ∷ ("redial_failed", "The call dropped and DialPass couldn't redial. Please try again.")
    ∷ (
      "user_left",
      "Looks like you hung up before DialPass reached a person. Call back when you're ready and it'll try again.",
    )
    ∷ (
      "handoff_error",
      "DialPass reached a person but couldn't connect you. Sorry — please try again.",
    )
    ∷ []

abbrev or_default : Option String → String
or_default none = default_message
or_default (some m) = m

unfoldable pub fallback_message : String → String
unfolding lookup
fallback_message reason = or_default (lookup reason by_reason)
