-- ===== src/Classifier/Examples.antt =====
-- Runs of the classifier's rules, as in tests/test_classifier.py.
use dial_pass.Prelude.{◌≡◌, refl, [], ◌∷◌}
use dial_pass.Labels.{Label}
use dial_pass.Fsm.{CallState, CallStateMachine, default_config, new_machine}
use dial_pass.Classifier.{Features, classify, scripted, sort_labels, insert_label, replay}

-- Speech with gaps between the words.
abbrev voice : Features
voice = record {
  rms = 900;
  flatness = 500;
  tone_460_ratio = 1000;
  quiet_frac = 4000;
  env_cv = 8000;
  mod_4hz = 3000;
}

hears_speech : (classify voice).label ≡ Label.live_speech_candidate
unfolding classify
hears_speech = refl

-- The schedule is replayed in the order of the starts.
replays :
    (scripted
      (record { label = Label.hold_music; t0 = 5; t1 = 9 }
        ∷ record { label = Label.ringback; t0 = 0; t1 = 6 }
        ∷ [])
      950
      5).label
    ≡ Label.ringback
unfolding scripted sort_labels insert_label replay
replays = refl

abbrev holding : CallStateMachine
holding = record (new_machine default_config) { state = CallState.on_hold }
