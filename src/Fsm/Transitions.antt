-- ===== src/Fsm/Transitions.antt =====
-- The diagram of the state machine of state.py: which signal takes which state to which, with the
-- counters and the clock left out. Beside the diagram of docs/design-decisions.md it has the edge
-- from DIALING to ON_HOLD, and a label of a lost line fails live states only.
use dial_pass.Prelude.{ℕ, ◌≡◌, refl, Bool, true, false, ◌||◌, arith}
use dial_pass.Labels.{
  Label, is_live_speech_candidate, is_hold_music, menu_labels, speechy_labels, non_connect_labels,
  hold_labels,
}
use dial_pass.Fsm.{
  CallState, Action, CallStateMachine, live_states, streak_for, handlers, observe, probe_result,
  note_menu_action, note_menu_abstained, bridged, completed, force_failed,
}
use dial_pass.Fsm.Signals.{
  Signal, tick, probed, pressed, abstained, handed_over, told_completed, told_failed, signal,
}

-- `completed` and `failed` are never ignored.
abbrev pub may_be_ignored : Signal → Bool
may_be_ignored told_completed = false
may_be_ignored told_failed = false
may_be_ignored _ = true

-- An edge, with the signal that takes it and the action that it asks for.
pub data Edge : CallState → Signal → Action → CallState → Type 0 where
  stay : {s : CallState} {g : Signal} → may_be_ignored g ≡ true → Edge s g Action.nothing s
  answered :
      {l : Label} {c t : ℕ}
      → menu_labels l || is_live_speech_candidate l ≡ true
      → Edge CallState.dialing (tick l c t) Action.wake_tier2_menu CallState.ivr_menu
  queued :
      {l : Label} {c t : ℕ}
      → is_hold_music l ≡ true
      → Edge CallState.dialing (tick l c t) Action.nothing CallState.on_hold
  submenu :
      {l : Label} {c t : ℕ}
      → speechy_labels l ≡ true
      → Edge CallState.ivr_menu (tick l c t) Action.wake_tier2_menu CallState.ivr_menu
  menu_done :
      {l : Label} {c t : ℕ}
      → is_hold_music l || (hold_labels l || is_live_speech_candidate l) ≡ true
      → Edge CallState.ivr_menu (tick l c t) Action.nothing CallState.on_hold
  menu_again :
      {l : Label} {c t : ℕ}
      → menu_labels l ≡ true
      → Edge CallState.on_hold (tick l c t) Action.wake_tier2_menu CallState.ivr_menu
  speech :
      {l : Label} {c t : ℕ}
      → is_live_speech_candidate l ≡ true
      → Edge CallState.on_hold (tick l c t) Action.wake_tier2_probe CallState.evaluating_speech
  stand_down :
      {l : Label} {c t : ℕ}
      → hold_labels l ≡ true
      → Edge CallState.evaluating_speech (tick l c t) Action.nothing CallState.on_hold
  confirmed :
      {t : ℕ}
      → Edge CallState.evaluating_speech (probed true t) Action.bridge CallState.human_detected
  refuted :
      {t : ℕ} → Edge CallState.evaluating_speech (probed false t) Action.nothing CallState.on_hold
  bridging : Edge CallState.human_detected handed_over Action.nothing CallState.bridging
  over : {s : CallState} → Edge s told_completed Action.nothing CallState.done
  lost :
      {s : CallState} {l : Label} {c t : ℕ}
      → live_states s ≡ true
      → non_connect_labels l ≡ true
      → Edge s (tick l c t) Action.fail CallState.failed
  given_up : {s : CallState} → Edge s told_failed Action.nothing CallState.failed

ruleset edges = (
  stay, answered, queued, submenu, menu_done, menu_again, speech, stand_down, confirmed, refuted,
  bridging, lost,
)

handlers-Edge :
    (s : CallState) (l : Label) (c k now : ℕ) (m : CallStateMachine)
    → m.state ≡ s
    → Edge s (tick l c now) (handlers s l k now m).1 (handlers s l k now m).0.state
unfolding handlers
handlers-Edge CallState.dialing l c k now m e = grind (arith, edges)
handlers-Edge CallState.ivr_menu l c k now m e = grind (arith, edges)
handlers-Edge CallState.on_hold l c k now m e = grind (arith, edges)
handlers-Edge CallState.evaluating_speech l c k now m e = grind (arith, edges)
handlers-Edge CallState.human_detected l c k now m e = rw e (stay refl)
handlers-Edge CallState.bridging l c k now m e = rw e (stay refl)
handlers-Edge CallState.done l c k now m e = rw e (stay refl)
handlers-Edge CallState.failed l c k now m e = rw e (stay refl)

streak_for-state : (l : Label) (c : ℕ) (m : CallStateMachine) → (streak_for l c m).0.state ≡ m.state
unfolding streak_for
streak_for-state l c m = ground arith

observe-Edge :
    (s : CallState) (l : Label) (c now : ℕ) (m : CallStateMachine)
    → m.state ≡ s
    → Edge s (tick l c now) (observe l c now m).1 (observe l c now m).0.state
unfolding observe
observe-Edge s l c now m e =
    let m' : CallStateMachine = (streak_for l c m).0 in
    let k : ℕ = (streak_for l c m).1 in
    grind (arith, lost, streak_for-state l c m, handlers-Edge m'.state l c k now m' refl)

signal-Edge_from :
    (s : CallState) (g : Signal) (m : CallStateMachine)
    → m.state ≡ s
    → Edge s g (signal g m).1 (signal g m).0.state
unfolding signal probe_result note_menu_action note_menu_abstained bridged completed force_failed
signal-Edge_from s (tick l c now) m e = observe-Edge s l c now m e
signal-Edge_from s (probed true now) m e = grind (arith, edges)
signal-Edge_from s (probed false now) m e = grind (arith, edges)
signal-Edge_from s (pressed now) m e = grind (arith, edges)
signal-Edge_from s abstained m e = grind (arith, edges)
signal-Edge_from s handed_over m e = grind (arith, edges)
signal-Edge_from s told_completed m e = over
signal-Edge_from s told_failed m e = given_up

-- Every call of a method of the machine follows an edge of the diagram: the state it leaves, the
-- label, verdict or order it brings, the action it asks for and the state it enters are joined by
-- one.
pub signal-Edge :
    (g : Signal) (m : CallStateMachine) → Edge m.state g (signal g m).1 (signal g m).0.state
signal-Edge g m = signal-Edge_from m.state g m refl
