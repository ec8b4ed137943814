-- ===== src/Realtime/Client.antt =====
-- `RealtimeClient` of src/dialpass/realtime/client.py, over its exchange.
use Prim.Native.Char.{Char, code}
use dial_pass.Prelude.{
  String, Bool, true, false, not, ◌&&◌, ◌||◌, Option, none, some, List, [], ◌==◌, ltb, str_append,
  if◌then◌else◌,
}
use dial_pass.Prelude.Text.{is_empty, size}
use dial_pass.Breaker.{Error, Outcome, value, raised}
use dial_pass.Tier2.{MenuDecision, ProbeOutcome}
use dial_pass.Realtime.Reply.{parse_verdict}
use dial_pass.Realtime.Exchange.{Incoming, collect, or_none}

-- `_VALID_DIGITS`
abbrev pub valid_digits : String
valid_digits = "0123456789*#"

abbrev pub is_member : Char → String → Bool
is_member c String.[] = false
is_member c (String.◌∷◌ d s) = code c == code d || is_member c s

-- `set(digits) <= _VALID_DIGITS`
abbrev pub is_valid : String → Bool
is_valid String.[] = true
is_valid (String.◌∷◌ c s) = is_member c valid_digits && is_valid s

-- Python's `repr` of a text.
module _ (repr : String → String) where
  -- From the digits and the rationale of a reply.
  unfoldable pub decide : String × String → MenuDecision
  decide (digits, rationale) =
      if not (is_empty digits) && not (is_valid digits)
      then record {
        digits = none;
        rationale = str_append "model returned non-DTMF keys " (repr digits);
      }
      else if ltb 20 (size digits)
      then record { digits = none; rationale = "model returned too many keys" }
      else record { digits = or_none digits; rationale = rationale }

  -- The reading of a JSON object in the reply.
  module _ (read_object : String → Option (String × String)) where
    -- `choose_menu_digit`, on what `_run` gives.
    unfoldable pub choose_digit : Option String → Outcome MenuDecision
    unfolding decide parse_verdict
    choose_digit none = raised Error.tier2_unavailable
    choose_digit (some text) = value (decide (parse_verdict read_object text))

    -- `choose_menu_digit` with its exchange.
    unfoldable pub choose_menu_digit : List Incoming → Outcome MenuDecision
    unfolding choose_digit collect
    choose_menu_digit arrived = choose_digit (collect [] arrived)

-- `probe`
abbrev pub probe_turn_based : Outcome ProbeOutcome
probe_turn_based = raised Error.not_implemented

-- `say_to_agent`
abbrev pub say_turn_based : Outcome {0} Unit
say_turn_based = raised Error.not_implemented
