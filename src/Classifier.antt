-- ===== src/Classifier.antt =====
-- src/dialpass/agent/classifier.py: the rules of the Tier 1 classifier over the features of a window.
-- The features are floating-point signal processing and are given, in units of 1/10000; confidences
-- are in thousandths. `ScriptedClassifier` stands for the classifier in tests.
pub mod Rules
mod Examples
use dial_pass.Prelude.{ℕ, Bool, true, false, ◌&&◌, ◌||◌, List, [], ◌∷◌, ltb, leb, if◌then◌else◌}
use dial_pass.Labels.{Label}
use dial_pass.Session.{Classification}

-- What the rules read of `acoustic_features`.
pub record Features : Type 0 where
  pub rms : ℕ
  pub flatness : ℕ
  pub tone_460_ratio : ℕ
  pub quiet_frac : ℕ
  pub env_cv : ℕ
  pub mod_4hz : ℕ

abbrev pub classification : Label → ℕ → Classification
classification l c = record { label = l; confidence = c }

-- `musicky` and `speechy`
abbrev pub musicky : Features → Bool
musicky f = leb 5000 f.mod_4hz && (ltb f.quiet_frac 3200 && ltb f.env_cv 7500)

abbrev pub speechy : Features → Bool
speechy f = leb 2500 f.quiet_frac || leb 6200 f.env_cv

-- Steady, tonal and rhythmic.
abbrev pub music_bed : Features → Bool
music_bed f = ltb f.flatness 800 && (ltb f.env_cv 6000 && leb 4500 f.mod_4hz)

-- `HeuristicClassifier.classify`, on the features.
unfoldable pub classify : Features → Classification
classify f =
    if ltb f.rms 100
    then classification Label.silence 900
    else if ltb 6000 f.tone_460_ratio && ltb f.flatness 1000
    then classification Label.ringback 800
    else if musicky f
    then classification Label.hold_music 650
    else if speechy f
    then classification Label.live_speech_candidate 600
    else if music_bed f
    then classification Label.hold_music 550
    else classification Label.unknown 400

pub record ScheduledLabel : Type 0 where
  pub label : Label
  pub t0 : ℕ
  pub t1 : ℕ

-- `sorted` by the start: each item goes behind those that start no later.
unfoldable pub insert_label : ScheduledLabel → List ScheduledLabel → List ScheduledLabel
insert_label s [] = s ∷ []
insert_label s (x ∷ xs) =
    let rest = insert_label s xs in if leb x.t0 s.t0 then x ∷ rest else s ∷ x ∷ xs

unfoldable pub sort_labels : List ScheduledLabel → List ScheduledLabel → List ScheduledLabel
unfolding insert_label
sort_labels sorted [] = sorted
sort_labels sorted (s ∷ schedule) = sort_labels (insert_label s sorted) schedule

-- The loop of `ScriptedClassifier.classify`.
unfoldable pub replay : ℕ → List ScheduledLabel → ℕ → Classification
replay confidence [] t = classification Label.unknown 300
replay confidence (s ∷ schedule) t =
    let rest = replay confidence schedule t in
    if leb s.t0 t && ltb t s.t1 then classification s.label confidence else rest

-- `ScriptedClassifier` with its `classify`.
unfoldable pub scripted : List ScheduledLabel → ℕ → ℕ → Classification
unfolding sort_labels replay
scripted schedule confidence t = replay confidence (sort_labels [] schedule) t
