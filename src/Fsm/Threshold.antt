-- ===== src/Fsm/Threshold.antt =====
-- The thresholds of state.py, and what a handler does below them.
use dial_pass.Prelude.{ℕ, ◌≤◌, ◌<◌, ◌≡◌, ◌≢◌, refl, true, false, none, arith}
use dial_pass.Labels.{Label, non_connect_labels}
use dial_pass.Fsm.{
  CallState, Action, FsmConfig, CallStateMachine, streak_for, handlers, observe, live_states,
}
use dial_pass.Fsm.Streak.{Tick}

-- The ticks that a threshold counts for a tick of this label and state: those of a transition.
abbrev pub threshold : FsmConfig → CallState → Label → ℕ
threshold c CallState.dialing Label.hold_music = c.dialing_to_hold_frames
threshold c CallState.dialing Label.voicemail = c.non_connect_frames
threshold c CallState.dialing Label.error_tone = c.non_connect_frames
threshold c CallState.dialing l = c.enter_menu_frames
threshold c CallState.ivr_menu Label.voicemail = c.non_connect_frames
threshold c CallState.ivr_menu Label.error_tone = c.non_connect_frames
threshold c CallState.ivr_menu Label.live_speech_candidate = c.menu_speech_to_hold_frames
threshold c CallState.ivr_menu l = c.enter_hold_frames
threshold c CallState.on_hold Label.voicemail = c.non_connect_frames
threshold c CallState.on_hold Label.error_tone = c.non_connect_frames
threshold c CallState.on_hold Label.live_speech_candidate = c.enter_eval_frames
threshold c CallState.on_hold l = c.reenter_menu_frames
threshold c CallState.evaluating_speech Label.voicemail = c.non_connect_frames
threshold c CallState.evaluating_speech Label.error_tone = c.non_connect_frames
threshold c CallState.evaluating_speech l = c.leave_eval_frames
threshold c s l = 0

-- Every threshold of the configuration asks for a tick at least.
pub record IsDebounced (c : FsmConfig) : Type 0 where
  pub enter_menu : 0 < c.enter_menu_frames
  pub enter_hold : 0 < c.enter_hold_frames
  pub dialing_to_hold : 0 < c.dialing_to_hold_frames
  pub reenter_menu : 0 < c.reenter_menu_frames
  pub enter_eval : 0 < c.enter_eval_frames
  pub leave_eval : 0 < c.leave_eval_frames
  pub non_connect : 0 < c.non_connect_frames
  pub speech_to_hold : 0 < c.menu_speech_to_hold_frames

-- A handler leaves the state only at its threshold.
pub handlers-threshold :
    (s : CallState) (l : Label) (k now : ℕ) (m : CallStateMachine)
    → m.state ≡ s
    → (handlers s l k now m).0.state ≢ s
    → threshold m.cfg s l ≤ k
unfolding handlers
handlers-threshold CallState.dialing l k now m e ne = ground arith
handlers-threshold CallState.ivr_menu l k now m e ne = ground arith
handlers-threshold CallState.on_hold l k now m e ne = ground arith
handlers-threshold CallState.evaluating_speech l k now m e ne = ground arith
handlers-threshold _ l k now m e ne = omega arith

pub threshold-pos :
    (c : FsmConfig) (s : CallState) (l : Label)
    → IsDebounced c
    → live_states s ≡ true
    → 0 < threshold c s l
threshold-pos c s l d live = ground arith

pub threshold-non_connect :
    (c : FsmConfig) (s : CallState) (l : Label)
    → live_states s ≡ true
    → non_connect_labels l ≡ true
    → threshold c s l ≡ c.non_connect_frames
threshold-non_connect c s l live nc = ground arith

pub handlers-dead :
    (s : CallState) (l : Label) (k now : ℕ) (m : CallStateMachine)
    → live_states s ≡ false
    → handlers s l k now m ≡ (m, Action.nothing)
unfolding handlers
handlers-dead s l k now m dead = ground arith

pub streak_for-state :
    (l : Label) (c : ℕ) (m : CallStateMachine)
    → ((streak_for l c m).0.state ≡ m.state) × ((streak_for l c m).0.cfg ≡ m.cfg)
unfolding streak_for
streak_for-state l c m = ground arith

-- What `observe` does, in terms of its parts.
module _ (l : Label) (c now : ℕ) (m : CallStateMachine) where
  pub observe-streak :
      (observe l c now m).0.state ≢ m.state → threshold m.cfg m.state l ≤ (streak_for l c m).1
  unfolding observe
  observe-streak ne =
      let m' : CallStateMachine = (streak_for l c m).0 in
      let k : ℕ = (streak_for l c m).1 in
      ground (
        arith,
        streak_for-state l c m,
        handlers-threshold m'.state l k now m' refl,
        threshold-non_connect m.cfg m.state l,
      )

-- A handler that keeps the state keeps the streak, and one that leaves it drops the streak.
pub handlers-streak :
    (s : CallState) (l : Label) (k now : ℕ) (m : CallStateMachine)
    → m.state ≡ s
    → let m' = (handlers s l k now m).0 in
      (m'.cfg ≡ m.cfg)
      × (m'.state ≡ s → (m'.streak ≡ m.streak) × (m'.streak_label ≡ m.streak_label))
      × (m'.state ≢ s → (m'.streak ≡ 0) × (m'.streak_label ≡ none))
unfolding handlers
handlers-streak CallState.dialing l k now m e = ground arith
handlers-streak CallState.ivr_menu l k now m e = ground arith
handlers-streak CallState.on_hold l k now m e = ground arith
handlers-streak CallState.evaluating_speech l k now m e = ground arith
handlers-streak _ l k now m e = ground arith

pub observe-live :
    (t : Tick) (now : ℕ) (m : CallStateMachine)
    → (observe t.label t.confidence now m).0.state ≢ m.state
    → live_states m.state ≡ true
unfolding observe
observe-live t now m moved =
    let m' : CallStateMachine = (streak_for t.label t.confidence m).0 in
    let k : ℕ = (streak_for t.label t.confidence m).1 in
    ground (arith, streak_for-state t.label t.confidence m, handlers-dead m'.state t.label k now m')
