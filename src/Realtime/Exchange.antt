-- ===== src/Realtime/Exchange.antt =====
-- The exchange of `RealtimeClient` (src/dialpass/realtime/client.py) for one menu decision: what is
-- sent, and what the messages that arrive come to.
use dial_pass.Prelude.{
  ℕ, ◌/◌, max, String, ◌||◌, Option, none, some, List, [], ◌∷◌, ◌++◌, map, chunks, length, str_eq,
  if◌then◌else◌,
}
use dial_pass.Prelude.Bytes.{ℤ}
use dial_pass.Prelude.Text.{is_empty, concat}
use dial_pass.Audio.{Bytes, pcm16_to_ulaw}

-- A part of the content of an item of a response.
pub record Part : Type 0 where
  pub kind : String
  pub text : Option String

-- An event, as the source reads it: the type, the delta, and the contents of the items of the
-- response.
pub record Event : Type 0 where
  pub kind : String
  pub delta : String
  pub output : List (List Part)

-- What the loop over the socket meets next: a message, or an exception, be it a message that is no
-- JSON, a lost connection or the end of the time limit. The socket is closed at the end of the list.
pub data Incoming : Type 0 where
  message : Event → Incoming
  exception : Incoming

unfoldable pub text_of_parts : List Part → Option (Option String)
text_of_parts [] = none
text_of_parts (p ∷ ps) =
    let rest = text_of_parts ps in
    if str_eq p.kind "output_text" || str_eq p.kind "text" then some p.text else rest

-- `_text_from_done`
unfoldable pub text_from_done : List (List Part) → Option String
unfolding text_of_parts
text_from_done [] = none
text_from_done (item ∷ items) = elim (text_of_parts item) [
  | some t ↦ t
  | none ↦ text_from_done items
]

-- `text or None`
abbrev pub or_none : String → Option String
or_none t = if is_empty t then none else some t

-- `"".join(parts) or _text_from_done(evt)`
abbrev pub text_or_done : String → Event → Option String
text_or_done t e = if is_empty t then text_from_done e.output else some t

-- The loop of `_menu_turn`, from the parts so far.
unfoldable pub collect : List String → List Incoming → Option String
unfolding text_from_done
collect parts [] = or_none (concat parts)
collect parts (exception ∷ later) = none
collect parts (message e ∷ later) =
    let more = collect (parts ++ e.delta ∷ []) later in
    let same = collect parts later in
    if str_eq e.kind "error"
    then none
    else if str_eq e.kind "response.output_text.delta"
    then more
    else if str_eq e.kind "response.done"
    then text_or_done (concat parts) e
    else same

pub data Request : Type 0 where
  session_update : String → Request
  append : Bytes → Request
  commit response_create : Request

-- The bytes of 200 ms at a sample rate.
abbrev pub upload_step : ℕ → ℕ
upload_step sample_rate = max 1 (sample_rate / 5)

-- What `_menu_turn` sends, given its instructions.
unfoldable pub menu_requests : String → List ℤ → ℕ → List Request
unfolding chunks
menu_requests instructions audio sample_rate =
    let ulaw = pcm16_to_ulaw audio in
    session_update instructions
    ∷ (map append (chunks (upload_step sample_rate) (length ulaw) ulaw)
        ++ commit ∷ response_create ∷ [])
