-- ===== src/Call/Examples.antt =====
-- A run of a call, as in tests/test_bridge.py: music, and then speech that a probe finds to be human.
use dial_pass.Prelude.{◌⊎◌, ◌<◌, length, ◌≡◌, ◌||◌, true, false, none, some, List, [], ◌∷◌}
use dial_pass.Prelude.Bytes.{ℤ, pos, negsuc}
use dial_pass.Labels.{Label}
use dial_pass.Fsm.{CallState, FsmConfig, default_config}
use dial_pass.Breaker.{Outcome, value}
use dial_pass.Tier2.{Answer, verdict}
use dial_pass.Session.{Frame, Classification, Settings, Session}
use dial_pass.Call.{
  Wires, CallEvent, agent_bound, user_bound, agent_frame, user_drained, user_ended, line_spoken,
  run, new_call, user_sms,
}
use dial_pass.Call.Phases.{has_human, IsSilent}
use dial_pass.Call.Handover.{handover_confirmed}

abbrev settings : Settings
settings = record {
  classifier_interval_ms = 1;
  buffer_seconds = 30;
  classify_window_ms = 1;
  menu_collect_s = 8;
}

abbrev quick : FsmConfig
quick = record default_config { dialing_to_hold_frames = 1; enter_eval_frames = 1 }

abbrev label_of : List ℤ → Label
label_of [] = Label.hold_music
label_of (pos n ∷ xs) = Label.hold_music
label_of (negsuc n ∷ xs) = Label.live_speech_candidate

abbrev classify : Frame ℤ → Classification
classify f = record { label = label_of f.pcm; confidence = 900 }

-- A millisecond of music, and one of speech.
abbrev music : CallEvent
music = agent_frame (255 ∷ 255 ∷ 255 ∷ 255 ∷ 255 ∷ 255 ∷ 255 ∷ 255 ∷ [])

abbrev speech : CallEvent
speech = agent_frame (0 ∷ 0 ∷ 0 ∷ 0 ∷ 0 ∷ 0 ∷ 0 ∷ 0 ∷ [])

abbrev human : Outcome Answer
human = value (verdict (record { is_human = true; transcript = "hello"; healthy = true }))

abbrev story : List CallEvent
story =
    agent_bound "MZa"
    ∷ user_bound "MZu"
    ∷ music
    ∷ music
    ∷ speech
    ∷ speech
    ∷ line_spoken
    ∷ agent_frame (7 ∷ [])
    ∷ user_drained
    ∷ user_ended
    ∷ []

abbrev call_at_end : Session ℤ Wires
call_at_end = run classify true story (
    new_call classify true "g" "CA1" settings quick none
      (some human ∷ some human ∷ some human ∷ []))

handover_confirmed_example :
    let b = call_at_end.world.bridge in
    (b.relay_open || b.handoff_task ≡ true
      → (has_human (some human ∷ some human ∷ some human ∷ []) ≡ true)
        × (call_at_end.finished ≡ true)
        × (call_at_end.fsm.state ≡ CallState.done))
    × (b.relay_open ≡ false → IsSilent call_at_end.world)
    × (b.relay_open ≡ true → call_at_end.world.texts ≡ user_sms ∷ [])
    × (call_at_end.finished ≡ true
        → (b.relay_open || b.handoff_task ≡ true) ⊎ (0 < length call_at_end.world.teardowns))
handover_confirmed_example =
    handover_confirmed classify true "g" "CA1" settings quick none
      (some human ∷ some human ∷ some human ∷ []) story
