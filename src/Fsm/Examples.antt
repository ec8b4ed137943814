-- ===== src/Fsm/Examples.antt =====
-- Runs of the state machine of state.py at concrete inputs, as tests/test_state.py has them.
use mathlib.Core.List.{Memᴰ}
use dial_pass.Fsm.Waking.{ticks_of, lasting_speech-wakes, lasting_loss-fails}
use dial_pass.Prelude.{ℕ, ◌≤◌, ◌≡◌, ◌≢◌, refl, true, false, some, List, [], All, ◌∷◌, arith}
use dial_pass.Labels.{Label, index}
use dial_pass.Fsm.{
  CallState, Action, CallStateMachine, default_config, new_machine, streak_for, handlers, observe,
  probe_result, note_menu_action, bridged,
}
use dial_pass.Fsm.Signals.{Signal, tick, probed, handed_over, told_completed, signal, run}
use dial_pass.Fsm.Streak.{Tick, run_length}
use dial_pass.Fsm.Threshold.{threshold}
use dial_pass.Fsm.Debounce.{heard, observe_debounced}
use dial_pass.Fsm.Transitions.{Edge, signal-Edge}
use dial_pass.Fsm.Cooldown.{no_probe_in_cooldown}
use dial_pass.Fsm.Handoff.{no_bridge_unconfirmed, unanswered}
use dial_pass.Fsm.Terminal.{terminal_absorbs, is_terminal}
use dial_pass.Fsm.Menus.{narration_never_rewakes}

abbrev start : CallStateMachine
start = new_machine default_config

abbrev held : CallStateMachine
held = record start {
  state = CallState.on_hold;
  streak_label = some Label.live_speech_candidate;
  streak = 1;
}

abbrev probing : CallStateMachine
probing = record start { state = CallState.evaluating_speech }

abbrev in_menu : CallStateMachine
in_menu = record start { state = CallState.ivr_menu; menu_presses = 6 }

abbrev speech : Tick
speech = record { label = Label.live_speech_candidate; confidence = 600 }

abbrev speech_at : ℕ → Signal
speech_at now = tick Label.live_speech_candidate 600 now

-- Two confident ticks of an error tone fail the call.
error_tone_fails :
    (run (tick Label.error_tone 900 0 ∷ tick Label.error_tone 900 4000 ∷ []) start).1
    ≡ Action.nothing ∷ Action.fail ∷ []
unfolding run signal observe streak_for handlers index new_machine
error_tone_fails = refl

-- Speech on hold wakes the probe at its second tick, and a human bridges the call.
human_answers :
    (run (speech_at 0 ∷ probed true 8000 ∷ handed_over ∷ []) held).0.state ≡ CallState.bridging
unfolding run signal observe streak_for handlers index new_machine probe_result bridged
human_answers = refl

signal-Edge_example :
    Edge CallState.on_hold
      (speech_at 0)
      (signal (speech_at 0) held).1
      (signal (speech_at 0) held).0.state
signal-Edge_example = signal-Edge (speech_at 0) held

-- Six ticks of music put a new call on hold, and one of speech follows.
abbrev queued : List Signal
queued =
    let music = tick Label.hold_music 900 0 in
    music ∷ music ∷ music ∷ music ∷ music ∷ music ∷ speech_at 0 ∷ []

queued_moves :
    let m = (run queued start).0 in (observe Label.live_speech_candidate 600 0 m).0.state ≢ m.state
unfolding run signal observe streak_for handlers index new_machine
queued_moves e = cc e

observe_debounced_example :
    (550 ≤ 600)
    × (threshold default_config (run queued start).0.state Label.live_speech_candidate
        ≤ run_length 550 Label.live_speech_candidate (speech ∷ heard queued start []))
observe_debounced_example =
    observe_debounced default_config queued speech 0 (ground arith) queued_moves

no_probe_in_cooldown_example :
    let m' = (probe_result false 8000 probing).0 in
    (m'.state ≡ CallState.on_hold)
    × All (λ a. a ≢ Action.wake_tier2_probe) (run (speech_at 12000 ∷ speech_at 71999 ∷ []) m').1
unfolding new_machine
no_probe_in_cooldown_example =
    no_probe_in_cooldown probing 8000 (speech_at 12000 ∷ speech_at 71999 ∷ []) refl (omega arith)

no_bridge_unconfirmed_example :
    let r = speech_at 0 ∷ probed false 1 ∷ told_completed ∷ [] in
    let (m, actions) = run r start in
    (unanswered m.state ≡ true)
    × All (λ a. a ≢ Action.bridge) actions
    × (m.state ≡ CallState.done → Memᴰ told_completed r)
no_bridge_unconfirmed_example =
    no_bridge_unconfirmed default_config (speech_at 0 ∷ probed false 1 ∷ told_completed ∷ [])
      (tt, (refl, (tt, tt)))

terminal_absorbs_example :
    let m = record start { state = CallState.failed } in
    let (end, actions) = run (speech_at 0 ∷ told_completed ∷ speech_at 1 ∷ []) m in
    (is_terminal end.state ≡ true)
    × (end.state ≡ CallState.done)
    × All (λ a. a ≡ Action.nothing) actions
terminal_absorbs_example =
    terminal_absorbs (record start { state = CallState.failed })
      (speech_at 0 ∷ told_completed ∷ speech_at 1 ∷ []) refl

narration_never_rewakes_example :
    All
      (λ a. a ≢ Action.wake_tier2_menu)
      (run (speech_at 100000 ∷ speech_at 200000 ∷ []) (note_menu_action 0 in_menu)).1
narration_never_rewakes_example =
    narration_never_rewakes in_menu 0 (speech_at 100000 ∷ speech_at 200000 ∷ []) refl
      (refl, (refl, tt))

abbrev queue_with_menu : CallStateMachine
queue_with_menu = record in_menu {
  state = CallState.on_hold;
  streak_label = some Label.menu_speaking;
  streak = 2;
}

abbrev on_hold : CallStateMachine
on_hold = record start { state = CallState.on_hold; refractory_until = 4000 }

lasting_speech-wakes_example :
    Memᴰ Action.wake_tier2_probe
      (run (ticks_of Label.live_speech_candidate ((600, 4000) ∷ (900, 8000) ∷ [])) on_hold).1
unfolding new_machine
lasting_speech-wakes_example =
    lasting_speech-wakes ((600, 4000) ∷ (900, 8000) ∷ []) on_hold refl
      ((omega arith, omega arith), ((omega arith, omega arith), tt)) (omega arith) (omega arith)

lasting_loss-fails_example :
    Memᴰ Action.fail (run (ticks_of Label.voicemail ((600, 0) ∷ (900, 4000) ∷ [])) probing).1
unfolding new_machine
lasting_loss-fails_example =
    lasting_loss-fails Label.voicemail ((600, 0) ∷ (900, 4000) ∷ []) probing refl refl
      ((omega arith, omega arith), ((omega arith, omega arith), tt)) (omega arith) (omega arith)
