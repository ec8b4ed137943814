-- ===== src/Xml/Urls.antt =====
-- Where the documents of voice.py send the legs of a call.
use dial_pass.Prelude.{ℕ, ◌≡◌, refl, true, false, none, some, [], ◌∷◌, ◌++◌, arith, ap, is_some}
use dial_pass.Xml.Quote.{Text, points, occurs}
use dial_pass.Xml.Documents.{
  expect, replace, media_ws_url, voice_twiml, join_twiml, join_intro, read_stream,
  read_stream-connect_stream,
}

-- A text without a character of the expected one does not begin with it.
expect-occurs :
    (d : ℕ) (p s : Text) → occurs d p ≡ true → occurs d s ≡ false → is_some (expect p s) ≡ false
unfolding expect
expect-occurs d [] s has lacks = ground arith
expect-occurs d (e ∷ p) [] has lacks = refl
expect-occurs d (e ∷ p) (c ∷ s) has lacks = ground (arith, expect-occurs d p s)

replace_nothing :
    (d : ℕ) (old new s : Text) → occurs d old ≡ true → occurs d s ≡ false → replace old new 0 s ≡ s
unfolding replace
replace_nothing d old new [] has lacks = refl
replace_nothing d old new (c ∷ s) has lacks =
    rw (expect-occurs d old (c ∷ s) has lacks)
      (ap (λ r. c ∷ r) (replace_nothing d old new s has (ground arith)))

media_ws_url-https :
    (host : Text)
    → occurs b'/' host ≡ false
    → media_ws_url (points "https://" ++ host) ≡ points "wss://" ++ (host ++ points "/media")
unfolding media_ws_url replace expect
media_ws_url-https host bare =
    rw (replace_nothing b'/' (points "https://") (points "wss://") host refl bare)
      (rw (replace_nothing b'/' (points "http://") (points "ws://") host refl bare) refl)

-- Where the public address is that of an https host, the document of either leg sends it to the
-- address `/media` of the host over wss; of its custom parameters the one named `group` is the group
-- it was asked for, and the one named `role` is the role of the leg.
pub legs_read_back :
    (host group : Text)
    → occurs b'/' host ≡ false
    → let base = points "https://" ++ host in
      let media = points "wss://" ++ (host ++ points "/media") in
      (read_stream (voice_twiml base group) ≡ some (media, some group, some (points "agent")))
      × (read_stream (join_twiml base group) ≡ some (media, some group, some (points "user")))
unfolding voice_twiml join_twiml
legs_read_back host group bare =
    let url = media_ws_url (points "https://" ++ host) in
    rw (← media_ws_url-https host bare) (
      read_stream-connect_stream url group (points "agent") none,
      read_stream-connect_stream url group (points "user") (some join_intro),
    )
