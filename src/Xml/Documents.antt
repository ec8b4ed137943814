-- ===== src/Xml/Documents.antt =====
-- The documents of src/dialpass/telephony/twiml.py and src/dialpass/api/voice.py for the legs of a call.
use dial_pass.Prelude.{
  ℕ, zero, suc, ◌-◌, ◌≡◌, refl, true, Option, none, some, List, [], ◌∷◌, ◌++◌, append_assoc, length,
  ◌==◌, if◌then◌else◌, arith, ◌∙◌, ◌>>=◌, is_some,
}
use dial_pass.Xml.Reading.{read_attribute-quoted}
use dial_pass.Xml.Quote.{Text, points, entity, escape, quoted, same, read_attribute}

abbrev pub response_open : Text
response_open = points "<?xml version=\"1.0\" encoding=\"UTF-8\"?><Response>"

abbrev pub stream_open : Text
stream_open = points "<Connect><Stream url="

abbrev pub group_open : Text
group_open = points "><Parameter name=\"group\" value="

abbrev pub role_open : Text
role_open = points "/><Parameter name=\"role\" value="

abbrev pub response_close : Text
response_close = points "/></Stream></Connect></Response>"

-- The line that is spoken first.
unfoldable pub say : Option Text → Text → Text
say none rest = rest
say (some []) rest = rest
say (some (c ∷ s)) rest = points "<Say>" ++ (escape (c ∷ s) ++ (points "</Say>" ++ rest))

unfoldable pub connect_stream : Text → Text → Text → Option Text → Text
unfolding say quoted
connect_stream url group role intro =
    response_open
    ++ say intro (
        stream_open
        ++ quoted url (group_open ++ quoted group (role_open ++ quoted role response_close)))

-- What follows an expected text.
unfoldable pub expect : Text → Text → Option Text
expect [] s = some s
expect (d ∷ p) [] = none
expect (d ∷ p) (c ∷ s) = let rest = expect p s in if c == d then rest else none

-- `s.replace(old, new)`, with the characters left to skip of the text that was replaced.
unfoldable pub replace : Text → Text → ℕ → Text → Text
unfolding expect
replace old new skip [] = []
replace old new (suc skip) (c ∷ s) = replace old new skip s
replace old new zero (c ∷ s) =
    let skipped = replace old new (length old - 1) s in
    let kept = replace old new zero s in
    if is_some (expect old (c ∷ s)) then new ++ skipped else c ∷ kept

-- `_media_ws_url`
unfoldable pub media_ws_url : Text → Text
unfolding replace
media_ws_url base =
    replace (points "http://") (points "ws://") 0
      (replace (points "https://") (points "wss://") 0 base)
    ++ points "/media"

-- `voice_twiml`
unfoldable pub voice_twiml : Text → Text → Text
voice_twiml base group = connect_stream (media_ws_url base) group (points "agent") none

abbrev pub join_intro : Text
join_intro =
    points "This is DialPass. Stay on the line — I'll connect you the moment someone picks up."

-- `join_twiml`
unfoldable pub join_twiml : Text → Text → Text
join_twiml base group = connect_stream (media_ws_url base) group (points "user") (some join_intro)

-- The text of an element is skipped up to the next mark.
unfoldable pub skip_text : Text → Option Text
skip_text [] = none
skip_text (c ∷ s) = let rest = skip_text s in if c == b'<' then some (c ∷ s) else rest

unfoldable pub skip_say : Text → Option Text
skip_say s = elim (expect (points "<Say>") s) [
  | none ↦ some s
  | some spoken ↦ skip_text spoken >>= expect (points "</Say>")
]

-- An element `<Parameter>`: its name and its value, with what follows.
unfoldable pub read_parameter : Text → Option ((Text × Text) × Text)
read_parameter s = do
  name ← expect (points "<Parameter name=") s >>= read_attribute
  value ← expect (points " value=") name.1 >>= read_attribute
  rest ← expect (points "/>") value.1
  some ((name.0, value.0), rest)

-- The value of the parameter of a name, as `customParameters` has it.
abbrev pub parameter : Text → List (Text × Text) → Option Text
parameter name [] = none
parameter name ((n, value) ∷ more) = if same n name then some value else parameter name more

-- How a document is read: the URL of its stream, and of the custom parameters those that `media_stream`
-- of src/dialpass/api/media.py asks for by their names.
unfoldable pub read_stream : Text → Option (Text × Option Text × Option Text)
unfolding read_parameter
read_stream doc = do
  body ← expect (points "<?xml version=\"1.0\" encoding=\"UTF-8\"?><Response>") doc
  stream ← skip_say body
  url ← expect (points "<Connect><Stream url=") stream >>= read_attribute
  inner ← expect (points ">") url.1
  first ← read_parameter inner
  second ← read_parameter first.1
  end ← expect (points "</Stream></Connect></Response>") second.1
  let parameters = first.0 ∷ second.0 ∷ []
  some (url.0, parameter (points "group") parameters, parameter (points "role") parameters)

expect-append : (p s : Text) → expect p (p ++ s) ≡ some s
unfolding expect
expect-append [] s = refl
expect-append (c ∷ p) s = let e : (c == c) ≡ true = ground arith in rw e (expect-append p s)

skip_text-entity : (c : ℕ) (s : Text) → skip_text (entity c ++ s) ≡ skip_text s
unfolding skip_text
skip_text-entity c s = ground arith

skip_text-escape : (t s : Text) → skip_text (escape t ++ b'<' ∷ s) ≡ some (b'<' ∷ s)
unfolding skip_text escape
skip_text-escape [] s = refl
skip_text-escape (c ∷ t) s =
    rw append_assoc (skip_text-entity c (escape t ++ b'<' ∷ s) ∙ skip_text-escape t s)

skip_say-say :
    (intro : Option Text) (rest : Text)
    → skip_say (say intro (stream_open ++ rest)) ≡ some (stream_open ++ rest)
unfolding skip_say say expect
skip_say-say none rest = refl
skip_say-say (some []) rest = refl
skip_say-say (some (c ∷ s)) rest =
    rw (skip_text-escape (c ∷ s) (points "/Say>" ++ (stream_open ++ rest))) refl

-- The document of a leg reads back: the URL of its stream and its parameters `group` and `role` are
-- those it was made with, whatever characters they hold and whatever is spoken first.
pub read_stream-connect_stream :
    (url group role : Text) (intro : Option Text)
    → read_stream (connect_stream url group role intro) ≡ some (url, some group, some role)
unfolding read_stream connect_stream expect read_attribute
read_stream-connect_stream url group role intro =
    let last = quoted role response_close in
    let middle = quoted group (role_open ++ last) in
    rw (skip_say-say intro (quoted url (group_open ++ middle))) (
      rw (read_attribute-quoted url (group_open ++ middle)) (
        rw (read_attribute-quoted group (role_open ++ last))
          (rw (read_attribute-quoted role response_close) refl)))
