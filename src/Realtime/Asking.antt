-- ===== src/Realtime/Asking.antt =====
-- What the other end of the sockets of src/dialpass/realtime is told, read from the documents.
use dial_pass.Prelude.{
  Bool, ℕ, suc, ◌≤◌, ◌<◌, ◌≡◌, refl, ap, String, Option, none, some, List, [], ◌∷◌, ◌++◌, map, take,
  length, All, str_eq, if◌then◌else◌,
}
use dial_pass.Bridge.{Bytes}
use dial_pass.Realtime.Exchange.{Request, append, commit, response_create}
use dial_pass.Realtime.Feeder.{IsFrame, Lasts, feed_asks}
use dial_pass.Realtime.Documents.{
  Json, text, object, Members, end, member, greeting, judge, feed_document, probe_documents,
}

-- A member that is a text.
abbrev pub text_of : Json → String
text_of (text t) = t
text_of _ = ""

abbrev pub text_member : String → Members → String
text_member k end = ""
text_member k (member j v more) = if str_eq j k then text_of v else text_member k more

abbrev pub object_of : Json → Members
object_of (object m) = m
object_of _ = end

abbrev pub object_member : String → Members → Members
object_member k end = end
object_member k (member j v more) = if str_eq j k then object_of v else object_member k more

abbrev pub kind_of : Json → String
kind_of d = text_member "type" (object_of d)

-- The instructions of the responses asked for, in order.
abbrev pub asked : List Json → List String
asked [] = []
asked (d ∷ ds) =
    let rest = asked ds in
    if str_eq (kind_of d) "response.create"
    then text_member "instructions" (object_member "response" (object_of d)) ∷ rest
    else rest

-- How often the audio was committed.
abbrev pub commits : List Json → ℕ
commits [] = 0
commits (d ∷ ds) =
    let rest = commits ds in
    if str_eq (kind_of d) "input_audio_buffer.commit" then suc rest else rest

module _ (encoded : Bytes → String) (decoded : String → Option Bytes)
    (decoded_encoded : (b : Bytes) → decoded (encoded b) ≡ some b) where
  abbrev heard_in : Option Bytes → List Bytes → List Bytes
  heard_in none rest = rest
  heard_in (some b) rest = b ∷ rest

  -- The audio that was appended, decoded, in order.
  abbrev pub appended : List Json → List Bytes
  appended [] = []
  appended (d ∷ ds) =
      let rest = appended ds in
      if str_eq (kind_of d) "input_audio_buffer.append"
      then heard_in (decoded (text_member "audio" (object_of d))) rest
      else rest

  abbrev asking : List Request
  asking = commit ∷ response_create ∷ []

  told-asking :
      (fs : List Bytes)
      → let ds = map (feed_document encoded) (map append fs ++ asking) in
        (appended ds ≡ fs) × (commits ds ≡ 1) × (asked ds ≡ judge ∷ [])
  unfolding feed_document
  told-asking [] = (refl, refl, refl)
  told-asking (f ∷ fs) =
      let (heard, counted, said) = told-asking fs in
      (rw (decoded_encoded f) (ap (λ r. f ∷ r) heard), counted, said)

  told-waiting :
      (fs : List Bytes)
      → let ds = map (feed_document encoded) (map append fs) in
        (appended ds ≡ fs) × (commits ds ≡ 0) × (asked ds ≡ [])
  unfolding feed_document
  told-waiting [] = (refl, refl, refl)
  told-waiting (f ∷ fs) =
      let (heard, counted, said) = told-waiting fs in
      (rw (decoded_encoded f) (ap (λ r. f ∷ r) heard), counted, said)

  -- Of a call that sends frames of 20 ms, a probe whose seconds, as floating-point adds them up, last
  -- for n frames tells the model this, where base64 decodes what it encodes. First it asks for the
  -- greeting. As soon as there are n frames it has appended just those, in order, has committed them
  -- once, and has asked for the verdict and for nothing more. With fewer it has appended them all, and
  -- has committed nothing and asked for nothing more.
  pub probe_documents-told :
      {Seconds : Type 0} (plus : Seconds → ℕ → Seconds) (short : Seconds → Bool)
      → (none_yet : Seconds) (n : ℕ) (frames : List Bytes) → All IsFrame frames
      → Lasts plus short n none_yet
      → let ds = probe_documents encoded plus short none_yet frames in
        (n ≤ length frames
          → (appended ds ≡ take n frames) × (commits ds ≡ 1) × (asked ds ≡ greeting ∷ judge ∷ []))
        × (length frames < n
            → (appended ds ≡ frames) × (commits ds ≡ 0) × (asked ds ≡ greeting ∷ []))
  unfolding probe_documents
  probe_documents-told plus short none_yet n frames h l =
      let (full, few) = feed_asks plus short n none_yet frames h l in
      (
        λ enough. rw (full enough) (
            let (heard, counted, said) = told-asking (take n frames) in
            (heard, counted, ap (λ r. greeting ∷ r) said)),
        λ less. rw (few less) (
            let (heard, counted, said) = told-waiting frames in
            (heard, counted, ap (λ r. greeting ∷ r) said)),
      )
