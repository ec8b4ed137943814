-- ===== src/Realtime/Probe.antt =====
-- The exchanges of src/dialpass/realtime/stream.py: `probe_exchange` with its feeder, `speak_exchange`.
use dial_pass.Prelude.{
  ℕ, String, Bool, true, false, not, ◌&&◌, ◌||◌, Option, none, some, List, [], ◌∷◌, ◌++◌, is_some,
  length, str_eq, if◌then◌else◌,
}
use dial_pass.Prelude.Bytes.{ℤ}
use dial_pass.Prelude.Text.{concat}
use dial_pass.Audio.{Bytes, ulaw_to_pcm16}
use dial_pass.Breaker.{Error, Outcome, value, raised}
use dial_pass.Tier2.{ProbeOutcome}
use dial_pass.Realtime.Exchange.{Event, Request, append, commit, response_create}
use dial_pass.Realtime.Verdict.{find_verdict, verdict_from_text}

-- What the loop over the socket meets: an event, a `TimeoutError`, `OSError` or `ConnectionError`, or
-- another exception. The socket is closed at the end of a list.
pub data Arrival : Type 0 where
  event : Event → Arrival
  unreachable : Arrival
  crash : Error → Arrival

-- What is played so far, the texts, and whether the verdict has begun.
pub record Progress : Type 0 where
  pub played : List (List ℤ)
  pub texts : List String
  pub judging : Bool

abbrev pub started : Progress
started = record { played = []; texts = []; judging = false }

unfoldable pub has_verdict : Progress → Bool
has_verdict p = is_some (find_verdict (concat p.texts))

-- After the loop: `errored` tells if an error event ended it.
unfoldable pub conclude : Bool → Progress → ProbeOutcome
unfolding has_verdict
conclude errored p =
    if errored && not (has_verdict p)
    then record { is_human = false; transcript = "probe error"; healthy = false }
    else verdict_from_text (concat p.texts)

abbrev pub unavailable : ProbeOutcome
unavailable = record { is_human = false; transcript = "probe unavailable"; healthy = false }

abbrev pub is_audio : Event → Bool
is_audio e = str_eq e.kind "response.output_audio.delta"

abbrev pub is_spoken_text : Event → Bool
is_spoken_text e = str_eq e.kind "response.output_audio_transcript.delta"

abbrev pub is_written_text : Event → Bool
is_written_text e =
    str_eq e.kind "response.output_text.delta" || str_eq e.kind "response.text.delta"

abbrev pub is_error : Event → Bool
is_error e = str_eq e.kind "error"

-- `base64.b64decode`, `none` where it raises.
module _ (decoded : String → Option Bytes) where
  -- `play(ulaw_to_pcm16(base64.b64decode(...)))`
  unfoldable pub play : String → List (List ℤ) → Option (List (List ℤ))
  unfolding ulaw_to_pcm16
  play delta played = elim (decoded delta) [
    | none ↦ none
    | some ulaw ↦ some (played ++ ulaw_to_pcm16 ulaw ∷ [])
  ]

  -- The branches of the loop that go on, `none` where decoding raises.
  unfoldable pub take_event : Event → Progress → Option Progress
  unfolding play
  take_event e p =
      if is_audio e && not p.judging
      then elim (play e.delta p.played) [
        | none ↦ none
        | some heard ↦ some (record p { played = heard })
      ]
      else if is_spoken_text e
      then some (record p { texts = p.texts ++ e.delta ∷ [] })
      else if is_written_text e
      then some (record p { judging = true; texts = p.texts ++ e.delta ∷ [] })
      else some p

  -- The loop of `probe_exchange`, with what has been played at its end.
  unfoldable pub probe_loop : List Arrival → Progress → Outcome ProbeOutcome × Progress
  probe_loop [] p = (value (conclude false p), p)
  probe_loop (unreachable ∷ later) p = (value unavailable, p)
  probe_loop (crash error ∷ later) p = (raised error, p)
  probe_loop (event e ∷ later) p =
      if is_error e then (value (conclude true p), p) else elim (take_event e p) [
        | none ↦ (raised Error.other_error, p)
        | some p' ↦ elim (has_verdict p') [
          | true ↦ (value (conclude false p'), p')
          | false ↦ probe_loop later p'
        ]
      ]

  -- The loop of `speak_exchange`: what it plays; it ends in silence but for a crash.
  unfoldable pub speak_loop : List Arrival → List (List ℤ) → Outcome (List (List ℤ))
  unfolding play
  speak_loop [] played = value played
  speak_loop (unreachable ∷ later) played = value played
  speak_loop (crash error ∷ later) played = raised error
  speak_loop (event e ∷ later) played =
      let same = speak_loop later played in
      if is_audio e
      then elim (play e.delta played) [
        | none ↦ raised Error.other_error
        | some heard ↦ speak_loop later heard
      ]
      else if str_eq e.kind "response.done" || str_eq e.kind "response.output_audio.done"
      then value played
      else if is_error e
      then value played
      else same

-- `feed`, after its pause: what it sends of the frames of the call. Its seconds are floating-point:
-- `plus drained n` is `drained + n / 8000.0`, and `short drained` is `drained < listen_s`. While
-- frames are missing it waits.
module _ {Seconds : Type 0} (plus : Seconds → ℕ → Seconds) (short : Seconds → Bool) where
  unfoldable pub feed : Seconds → List Bytes → List Request
  feed drained [] = if short drained then [] else commit ∷ response_create ∷ []
  feed drained (frame ∷ frames) =
      let rest = feed (plus drained (length frame)) frames in
      if short drained then append frame ∷ rest else commit ∷ response_create ∷ []
