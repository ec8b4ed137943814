-- ===== src/Xml/Press.antt =====
-- The document by which `press_digits` of src/dialpass/telephony/twilio_client.py presses keys, and
-- the keys that src/dialpass/agent/bridge.py hands it. The request stands in Telephony.Twilio.
use Prim.Native.Char.{Char, code}
use dial_pass.Prelude.{
  ◌≡◌, refl, ap, String, true, [], ◌∷◌, ◌++◌, if◌then◌else◌, Bool-cases, inl, inr, arith,
}
use dial_pass.Bridge.{is_key, keys}
use dial_pass.Xml.Quote.{Text, points, occurs}
use dial_pass.Xml.Documents.{response_open}

-- The keys, and the pause `w`.
unfoldable pub keep_tones : Text → Text
keep_tones [] = []
keep_tones (c ∷ s) =
    let rest = keep_tones s in if occurs c (points "0123456789*#w") then c ∷ rest else rest

abbrev pub play_document : Text → Text → Text
play_document tones reconnect_url =
    response_open
    ++ (points "<Play digits=\"w"
        ++ (tones
            ++ (points "\"/><Pause length=\"1\"/><Redirect>"
                ++ (reconnect_url ++ points "</Redirect></Response>"))))

-- `press_digits`, up to the request.
unfoldable pub press_digits : Text → Text → Text
unfolding keep_tones
press_digits digits reconnect_url = play_document (keep_tones digits) reconnect_url

key-occurs : (c : Char) → is_key c ≡ true → occurs (code c) (points "0123456789*#w") ≡ true
key-occurs c h = ground arith

keep_tones-keys : (s : String) → keep_tones (points (keys s)) ≡ points (keys s)
unfolding keep_tones keys
keep_tones-keys String.[] = refl
keep_tones-keys (String.◌∷◌ c s) = elim (Bool-cases (is_key c)) [
  | inl key ↦
      let tone = key-occurs c key in rw key (rw tone (ap (λ r. code c ∷ r) (keep_tones-keys s)))
  | inr other ↦ rw other (keep_tones-keys s)
]

-- All the keys that the bridge lets through are pressed: the document plays exactly them, after a
-- pause, and then sends the leg back to the address it is given.
pub press_digits-keys :
    (digits : String) (reconnect_url : Text)
    → press_digits (points (keys digits)) reconnect_url
      ≡ play_document (points (keys digits)) reconnect_url
unfolding press_digits
press_digits-keys digits reconnect_url =
    ap (λ tones. play_document tones reconnect_url) (keep_tones-keys digits)
