-- ===== src/Realtime/Keys.antt =====
-- The digits that client.py takes from a reply, and what bridge.py presses of them.
use Prim.Native.Char.{Char}
use dial_pass.Prelude.{
  ℕ, ◌≤◌, ◌≡◌, refl, ap, String, true, false, Option, none, some, List, [], ◌∷◌, arith,
}
use dial_pass.Prelude.Text.{is_empty, size}
use dial_pass.Breaker.{value}
use dial_pass.Bridge.{CallBridge, is_key, keys, press_dtmf}
use dial_pass.Tier2.{MenuDecision}
use dial_pass.Realtime.Exchange.{Incoming, collect}
use dial_pass.Realtime.Client.{
  valid_digits, is_member, is_valid, decide, choose_digit, choose_menu_digit,
}
use dial_pass.Realtime.Reply.{parse_verdict}

is_member-is_key : (c : Char) → is_member c valid_digits ≡ true → is_key c ≡ true
is_member-is_key c h = ground arith

-- Nothing of a text of valid digits is dropped.
keys-is_valid : (s : String) → is_valid s ≡ true → keys s ≡ s
unfolding keys
keys-is_valid String.[] h = refl
keys-is_valid (String.◌∷◌ c s) h =
    let key = is_member-is_key c (ground arith) in
    rw key (ap (λ r. String.◌∷◌ c r) (keys-is_valid s (ground arith)))

abbrev pub IsPressable : String → Type 0
IsPressable ds = (is_empty ds ≡ false) × (is_valid ds ≡ true) × (size ds ≤ 20)

decide-IsPressable :
    (repr : String → String) (p : String × String) (ds : String)
    → (decide repr p).digits ≡ some ds
    → IsPressable ds
unfolding decide
decide-IsPressable repr (digits, rationale) ds = ground arith

module _ (repr : String → String) (read_object : String → Option (String × String)) where
  choose-IsPressable :
      (t : Option String) (m : MenuDecision) (ds : String)
      → choose_digit repr read_object t ≡ value m
      → m.digits ≡ some ds
      → IsPressable ds
  unfolding choose_digit
  choose-IsPressable none m ds h e = ground arith
  choose-IsPressable (some t) m ds h e =
      decide-IsPressable repr (parse_verdict read_object t) ds (ground arith)

  -- The digits that `choose_menu_digit` decides on, whatever arrives on its socket and however a
  -- JSON object is read, are at least one and at most twenty, and the bridge presses exactly
  -- them: with the agent leg bound, `press_dtmf` starts one redirect with those digits.
  pub chosen_digits_pressed :
      (arrived : List Incoming) (m : MenuDecision) (digits sid : String) (now : ℕ) (b : CallBridge)
      → choose_menu_digit repr read_object arrived ≡ value m
      → m.digits ≡ some digits
      → b.agent_stream_sid ≡ some sid
      → (is_empty digits ≡ false)
        × (size digits ≤ 20)
        × ((press_dtmf digits now b).redirects ≡ digits ∷ b.redirects)
  unfolding choose_menu_digit press_dtmf
  chosen_digits_pressed arrived m digits sid now b h e bound =
      let (full, valid, short) = choose-IsPressable (collect [] arrived) m digits h e in
      let same = keys-is_valid digits valid in (full, short, rw same (rw full (rw bound refl)))
