-- ===== src/Scenario/Examples.antt =====
-- The default call, and its frames.
use dial_pass.Prelude.{◌≡◌, refl}
use dial_pass.Labels.{Label}
use dial_pass.Classifier.{classification, scripted}
use dial_pass.Scenario.{default_script, schedule_from, seconds}

music_at_twelve :
    scripted (schedule_from 0 default_script) 900 (seconds 12) ≡ classification Label.hold_music 900
unfolding scripted schedule_from
music_at_twelve = refl
