-- ===== src/Scenario.antt =====
-- src/dialpass/testing.py: the schedule of a synthetic call, and its frames. Its sound, which is
-- floating-point signal processing, is left out.
pub mod Replay
mod Examples
use dial_pass.Prelude.{ℕ, ◌+◌, ◌*◌, ◌/◌, List, [], ◌∷◌, chunks, length}
use dial_pass.Labels.{Label}
use dial_pass.Classifier.{ScheduledLabel}

pub record Segment : Type 0 where
  pub label : Label
  pub duration : ℕ

abbrev pub seconds : ℕ → ℕ
seconds s = s * 8000

-- `DEFAULT_SCRIPT`
abbrev pub default_script : List Segment
default_script =
    record { label = Label.ringback; duration = seconds 4 }
    ∷ record { label = Label.menu_speaking; duration = seconds 5 }
    ∷ record { label = Label.menu_awaiting_input; duration = 12000 }
    ∷ record { label = Label.silence; duration = seconds 1 }
    ∷ record { label = Label.hold_music; duration = seconds 10 }
    ∷ record { label = Label.hold_interjection; duration = 20000 }
    ∷ record { label = Label.hold_music; duration = seconds 8 }
    ∷ record { label = Label.live_speech_candidate; duration = seconds 6 }
    ∷ []

-- The schedule of `synthesize_call`, from a time on.
unfoldable pub schedule_from : ℕ → List Segment → List ScheduledLabel
schedule_from t [] = []
schedule_from t (s ∷ script) =
    record { label = s.label; t0 = t; t1 = t + s.duration } ∷ schedule_from (t + s.duration) script

-- `iter_frames`; a frame is no shorter than one sample.
unfoldable pub iter_frames {ℓ} : {A : Type ℓ} → List A → ℕ → List (List A)
unfolding chunks
iter_frames pcm frame_ms = chunks (8000 * frame_ms / 1000) (length pcm) pcm
