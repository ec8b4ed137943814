-- ===== src/Fsm/Menus.antt =====
-- When a menu prompt wakes Tier 2 in state.py.
use dial_pass.Prelude.{ℕ, ◌+◌, ◌≤◌, ◌≡◌, ◌≢◌, refl, true, false, some, List, All, arith}
use dial_pass.Labels.{Label, menu_labels}
use dial_pass.Fsm.{
  CallState, Action, CallStateMachine, streak_for, handlers, observe, note_menu_action,
}
use dial_pass.Fsm.Signals.{
  Signal, tick, probed, pressed, abstained, handed_over, told_completed, told_failed, signal, run,
  run_induction, streak_for_keeps,
}

-- A tick of the label that Tier 1 gives to all speech.
abbrev pub IsSpeech : Signal → Type 0
IsSpeech (tick l c now) = l ≡ Label.live_speech_candidate
IsSpeech _ = ⊥

-- Past the answer, with no gap heard since the last prompt.
pub record IsGapless (m : CallStateMachine) : Type 0 where
  pub answered : m.state ≢ CallState.dialing
  pub no_gap : m.state ≡ CallState.ivr_menu → m.menu_gap_seen ≡ false

handlers-IsGapless :
    (s : CallState) (k now : ℕ) (m : CallStateMachine)
    → m.state ≡ s
    → IsGapless m
    → let (m', a) = handlers s Label.live_speech_candidate k now m in
      IsGapless m' × (a ≢ Action.wake_tier2_menu)
unfolding handlers
handlers-IsGapless CallState.dialing k now m e h = absurd (h.answered e)
handlers-IsGapless CallState.ivr_menu k now m e h = ground arith
handlers-IsGapless CallState.on_hold k now m e h = ground arith
handlers-IsGapless CallState.evaluating_speech k now m e h = ground arith
handlers-IsGapless _ k now m e h = ground arith

signal-IsGapless :
    (s : Signal) (m : CallStateMachine)
    → IsSpeech s
    → IsGapless m
    → IsGapless (signal s m).0 × ((signal s m).1 ≢ Action.wake_tier2_menu)
unfolding signal observe
signal-IsGapless (tick l c now) m e h =
    let m' : CallStateMachine = (streak_for Label.live_speech_candidate c m).0 in
    let k : ℕ = (streak_for Label.live_speech_candidate c m).1 in
    rw e (
      ground (
        arith,
        streak_for_keeps Label.live_speech_candidate c m,
        handlers-IsGapless m'.state k now m' refl,
      ))
signal-IsGapless (probed is_human now) m e h = absurd e
signal-IsGapless (pressed now) m e h = absurd e
signal-IsGapless abstained m e h = absurd e
signal-IsGapless handed_over m e h = absurd e
signal-IsGapless told_completed m e h = absurd e
signal-IsGapless told_failed m e h = absurd e

-- After a digit was pressed in a menu, speech that goes on without a break, however long, never
-- wakes Tier 2 for a menu again.
pub narration_never_rewakes :
    (m : CallStateMachine) (t : ℕ) (r : List Signal)
    → m.state ≡ CallState.ivr_menu
    → All IsSpeech r
    → All (λ a. a ≢ Action.wake_tier2_menu) (run r (note_menu_action t m)).1
unfolding note_menu_action
narration_never_rewakes m t r e speech =
    (run_induction IsSpeech IsGapless (λ a. a ≢ Action.wake_tier2_menu) signal-IsGapless r
      (note_menu_action t m) speech (ground arith)).1

-- The cap on key presses holds inside a menu: at the cap no tick in IVR_MENU wakes Tier 2.
pub menu_cap :
    (l : Label) (c now : ℕ) (m : CallStateMachine)
    → m.state ≡ CallState.ivr_menu
    → m.cfg.max_menu_presses ≤ m.menu_presses
    → (observe l c now m).1 ≢ Action.wake_tier2_menu
unfolding observe handlers
menu_cap l c now m e full = ground (arith, streak_for_keeps l c m)

-- The cap on key presses does not hold on ON_HOLD: whatever their number, a confident menu label
-- that completes a run of `reenter_menu_frames` wakes Tier 2 for the menu.
pub hold_ignores_cap :
    (l : Label) (c now : ℕ) (m : CallStateMachine)
    → m.state ≡ CallState.on_hold
    → menu_labels l ≡ true
    → m.cfg.min_confidence ≤ c
    → m.streak_label ≡ some l
    → m.cfg.reenter_menu_frames ≤ m.streak + 1
    → ((observe l c now m).1 ≡ Action.wake_tier2_menu)
      × ((observe l c now m).0.menu_presses ≡ m.menu_presses)
unfolding observe handlers streak_for
hold_ignores_cap l c now m e menu sure same enough = ground arith
