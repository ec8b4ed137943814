-- ===== src/Labels.antt =====
-- src/dialpass/agent/labels.py: Tier 1's per-frame labels and the sets of labels that the state
-- machine tests. A `frozenset` is its membership test.
use dial_pass.Prelude.{ℕ, zero, suc, ◌≡◌, refl, ap, Bool, true, false, ◌||◌, ◌==◌}

pub data Label : Type 0 where
  ringback menu_speaking menu_awaiting_input hold_music hold_interjection : Label
  live_speech_candidate voicemail error_tone silence unknown : Label

-- The place of a label in the enumeration, by which two labels are compared.
unfoldable pub index : Label → ℕ
index Label.ringback = 0
index Label.menu_speaking = 1
index Label.menu_awaiting_input = 2
index Label.hold_music = 3
index Label.hold_interjection = 4
index Label.live_speech_candidate = 5
index Label.voicemail = 6
index Label.error_tone = 7
index Label.silence = 8
index Label.unknown = 9

abbrev pub label_eq : Label → Label → Bool
label_eq a b = index a == index b

label_at : ℕ → Label
label_at zero = Label.ringback
label_at (suc zero) = Label.menu_speaking
label_at (suc (suc zero)) = Label.menu_awaiting_input
label_at (suc (suc (suc zero))) = Label.hold_music
label_at (suc (suc (suc (suc zero)))) = Label.hold_interjection
label_at (suc (suc (suc (suc (suc zero))))) = Label.live_speech_candidate
label_at (suc (suc (suc (suc (suc (suc zero)))))) = Label.voicemail
label_at (suc (suc (suc (suc (suc (suc (suc zero))))))) = Label.error_tone
label_at (suc (suc (suc (suc (suc (suc (suc (suc zero)))))))) = Label.silence
label_at _ = Label.unknown

label_at-index : (l : Label) → label_at (index l) ≡ l
unfolding index label_at
label_at-index Label.ringback = refl
label_at-index _ = refl

pub index-injective : (a b : Label) → index a ≡ index b → a ≡ b
index-injective a b e = cc (ap label_at e, label_at-index a, label_at-index b)

abbrev pub is_live_speech_candidate : Label → Bool
is_live_speech_candidate Label.live_speech_candidate = true
is_live_speech_candidate _ = false

abbrev pub is_hold_music : Label → Bool
is_hold_music Label.hold_music = true
is_hold_music _ = false

-- MENU_LABELS
abbrev pub menu_labels : Label → Bool
menu_labels Label.menu_speaking = true
menu_labels Label.menu_awaiting_input = true
menu_labels _ = false

-- SPEECHY_LABELS
abbrev pub speechy_labels : Label → Bool
speechy_labels l = menu_labels l || is_live_speech_candidate l

-- NON_CONNECT_LABELS
abbrev pub non_connect_labels : Label → Bool
non_connect_labels Label.voicemail = true
non_connect_labels Label.error_tone = true
non_connect_labels _ = false

-- HOLD_LABELS
abbrev pub hold_labels : Label → Bool
hold_labels Label.hold_music = true
hold_labels Label.hold_interjection = true
hold_labels Label.silence = true
hold_labels _ = false
