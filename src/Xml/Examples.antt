-- ===== src/Xml/Examples.antt =====
-- Documents, as in tests/test_twiml.py and tests/test_voice.py.
use dial_pass.Prelude.{◌≡◌, refl, some, [], ◌++◌}
use dial_pass.Xml.Quote.{points, quoted}
use dial_pass.Xml.Documents.{
  connect_stream, voice_twiml, join_twiml, read_stream, read_stream-connect_stream, media_ws_url,
}
use dial_pass.Xml.Urls.{legs_read_back}

both_quotes : quoted (points "a\"b'&\n") [] ≡ points "\"a&quot;b'&amp;&#10;\""
unfolding quoted
both_quotes = refl

plain_http : media_ws_url (points "http://localhost:8000") ≡ points "ws://localhost:8000/media"
unfolding media_ws_url
plain_http = refl

read_stream-connect_stream_example :
    read_stream (
      connect_stream
        (points "wss://h/media")
        (points "a<\"'b")
        (points "agent")
        (some (points "hi & <bye>")))
    ≡ some (points "wss://h/media", some (points "a<\"'b"), some (points "agent"))
read_stream-connect_stream_example =
    read_stream-connect_stream (points "wss://h/media") (points "a<\"'b") (points "agent")
      (some (points "hi & <bye>"))

legs_read_back_example :
    let base = points "https://" ++ points "dialpass" in
    let media = points "wss://" ++ (points "dialpass" ++ points "/media") in
    (read_stream (voice_twiml base (points "g1"))
      ≡ some (media, some (points "g1"), some (points "agent")))
    × (read_stream (join_twiml base (points "g1"))
        ≡ some (media, some (points "g1"), some (points "user")))
legs_read_back_example = legs_read_back (points "dialpass") (points "g1") refl
