-- ===== src/Realtime/Documents.antt =====
-- What the exchanges of src/dialpass/realtime/stream.py and client.py send on their sockets, as JSON
-- documents. base64 is a parameter.
use dial_pass.Prelude.{Bool, ℕ, String, Option, none, some, List, [], ◌∷◌, map, if◌then◌else◌}
use dial_pass.Prelude.Bytes.{ℤ}
use dial_pass.Prelude.Text.{is_empty, concat}
use dial_pass.Audio.{Bytes}
use dial_pass.Realtime.Exchange.{
  Request, session_update, append, commit, response_create, menu_requests,
}
use dial_pass.Realtime.Probe.{feed}

mutual
  pub data Json : Type 0 where
    null : Json
    text : String → Json
    texts : List String → Json
    object : Members → Json

  pub data Members : Type 0 where
    end : Members
    member : String → Json → Members → Members

-- `_URL`, of a model.
unfoldable pub url : String → String
url model = concat ("wss://api.openai.com/v1/realtime?model=" ∷ model ∷ [])

-- `_PROBE_SYSTEM`
abbrev pub probe_system : String
probe_system =
    "You screen a phone line for a call-routing system. You never hold a conversation. You do two things only, when told to: (1) say one short greeting out loud; (2) classify a few seconds of what the line said back. The classification is exactly one line: 'VERDICT HUMAN' if a live person is speaking to you (a greeting, a question, asking who is calling), or 'VERDICT NOT HUMAN' for silence, hold music, ringing, tones, beeps, or a recorded message / IVR menu."

-- `_GREETING`
abbrev pub greeting : String
greeting =
    "Say just this, calmly, and nothing else: \"Hi, this is an assistant calling — is someone there?\""

-- `_JUDGE`
abbrev pub judge : String
judge =
    "Classify ONLY what you heard since your greeting. Reply with exactly 'VERDICT HUMAN' or 'VERDICT NOT HUMAN' — no other words."

-- `_SPEAK_SYSTEM`
abbrev pub speak_system : String
speak_system =
    "You are a text-to-speech voice for a call-routing assistant. When told to say something, say exactly that once, calmly and naturally, then stop. Never add words of your own and never wait for a reply."

-- What `_menu_instructions` says of the goal.
abbrev pub goal_line : Option String → String
goal_line none = "The caller wants to reach a human agent."
goal_line (some goal) =
    if is_empty goal
    then "The caller wants to reach a human agent."
    else concat ("The caller's goal: " ∷ goal ∷ "." ∷ [])

-- `_menu_instructions`
unfoldable pub menu_instructions : Option String → String
menu_instructions goal = concat (
    "You are a DTMF dialer for a phone menu (IVR). "
    ∷ goal_line goal
    ∷ " The caller speaks English.\nYou are given a recording of what the line just said. Pick the keypad key whose spoken option best matches the goal. If an option is phrased '<description> or press N' and the description fits, use N. Prefer an agent / representative / operator option when nothing matches better.\nLanguage prompts: choose the English option. If English is the default (e.g. \"for French press 2\" with no key for English), use \"\".\nData entry: if the line asks you to ENTER a number (account number, member ID, meeting ID, zip, extension) and that exact number appears in the goal, return those digits — add \"#\" only if it says \"followed by pound\". Never invent digits that are not in the goal.\nOtherwise use \"\": no stated option fits, none were given, it asks you to speak, or it is hold music / an after-hours message.\nOutput EXACTLY ONE LINE of JSON and NOTHING else — no prose, no code fences, never ask a question:\n{\"digit\": \"<one key 0-9 * #, or the digits to enter, or empty>\", \"rationale\": \"<=12 words>\"}"
    ∷ [])

-- `{"type": "audio/pcmu"}`
abbrev pub pcmu : Json
pcmu = object (member "type" (text "audio/pcmu") end)

abbrev pub audio_input : Json
audio_input = object (member "format" pcmu (member "turn_detection" null end))

abbrev pub audio_output : Json
audio_output = object (member "format" pcmu (member "voice" (text "alloy") end))

-- A `session.update`, of its instructions, its modality and its audio.
abbrev pub update_session : String → String → Members → Json
update_session instructions modality audio = object (
    member "type" (text "session.update") (
      member "session"
        (object (
          member "type" (text "realtime") (
            member "instructions" (text instructions) (
              member "output_modalities" (texts (modality ∷ []))
                (member "audio" (object audio) end)))))
        end))

-- A `response.create`, of what it says of the response.
abbrev pub create_response : Members → Json
create_response response =
    object (member "type" (text "response.create") (member "response" (object response) end))

module _ (encoded : Bytes → String) where
  abbrev pub append_audio : Bytes → Json
  append_audio ulaw =
      object (
        member "type" (text "input_audio_buffer.append") (member "audio" (text (encoded ulaw)) end))

  abbrev pub commit_audio : Json
  commit_audio = object (member "type" (text "input_audio_buffer.commit") end)

  -- The messages of `feed`.
  unfoldable pub feed_document : Request → Json
  feed_document (session_update instructions) = update_session instructions "audio" end
  feed_document (append ulaw) = append_audio ulaw
  feed_document commit = commit_audio
  feed_document response_create =
      create_response
        (member "output_modalities" (texts ("text" ∷ [])) (member "instructions" (text judge) end))

  -- The messages of `probe_exchange`, on the arithmetic of the seconds of `feed`, from `0.0` on.
  unfoldable pub probe_documents :
      {Seconds : Type 0}
      → (Seconds → ℕ → Seconds)
      → (Seconds → Bool)
      → Seconds
      → List Bytes
      → List Json
  unfolding feed_document
  probe_documents plus short none_yet frames =
      update_session probe_system "audio"
        (member "input" audio_input (member "output" audio_output end))
      ∷ create_response (member "instructions" (text greeting) end)
      ∷ map feed_document (feed plus short none_yet frames)

  -- The messages of `_menu_turn`.
  unfoldable pub menu_document : Request → Json
  menu_document (session_update instructions) =
      update_session instructions "text" (member "input" audio_input end)
  menu_document (append ulaw) = append_audio ulaw
  menu_document commit = commit_audio
  menu_document response_create = object (member "type" (text "response.create") end)

  unfoldable pub menu_documents : Option String → List ℤ → ℕ → List Json
  unfolding menu_document
  menu_documents goal audio sample_rate =
      map menu_document (menu_requests (menu_instructions goal) audio sample_rate)

-- The messages of `speak_exchange`.
unfoldable pub speak_documents : String → List Json
speak_documents line =
    update_session speak_system "audio" (member "output" audio_output end)
    ∷ create_response (
        member "instructions" (text (concat ("Say exactly this, once: \"" ∷ line ∷ "\"" ∷ []))) end)
    ∷ []
