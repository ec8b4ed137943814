-- ===== src/Fsm.antt =====
-- src/dialpass/agent/state.py: the call-phase state machine. Every method that mutates
-- `CallStateMachine` returns the new record. Times are natural numbers in units of 1/8000 s, one
-- audio sample; confidences are in thousandths.
pub mod Streak
pub mod Threshold
pub mod Debounce
pub mod Transitions
pub mod Signals
pub mod Cooldown
pub mod Handoff
pub mod Terminal
pub mod Menus
pub mod Waking
mod Examples
use dial_pass.Prelude.{
  ℕ, ◌+◌, ◌*◌, Bool, true, false, ◌&&◌, ◌||◌, Option, none, some, ltb, leb, ◌==◌, if◌then◌else◌,
}
use dial_pass.Labels.{
  Label, label_eq, is_live_speech_candidate, is_hold_music, menu_labels, speechy_labels,
  non_connect_labels, hold_labels,
}

pub data CallState : Type 0 where
  dialing ivr_menu on_hold evaluating_speech human_detected bridging done failed : CallState

-- LIVE_STATES
abbrev pub live_states : CallState → Bool
live_states CallState.dialing = true
live_states CallState.ivr_menu = true
live_states CallState.on_hold = true
live_states CallState.evaluating_speech = true
live_states _ = false

abbrev pub is_ivr_menu : CallState → Bool
is_ivr_menu CallState.ivr_menu = true
is_ivr_menu _ = false

abbrev pub is_evaluating_speech : CallState → Bool
is_evaluating_speech CallState.evaluating_speech = true
is_evaluating_speech _ = false

abbrev pub is_human_detected : CallState → Bool
is_human_detected CallState.human_detected = true
is_human_detected _ = false

pub data Action : Type 0 where
  nothing wake_tier2_menu wake_tier2_probe bridge fail : Action

pub record FsmConfig : Type 0 where
  pub enter_menu_frames : ℕ
  pub enter_hold_frames : ℕ
  pub dialing_to_hold_frames : ℕ
  pub reenter_menu_frames : ℕ
  pub enter_eval_frames : ℕ
  pub leave_eval_frames : ℕ
  pub non_connect_frames : ℕ
  pub menu_refractory_s : ℕ
  pub menu_gap_frames : ℕ
  pub max_menu_presses : ℕ
  pub menu_noops_before_hold : ℕ
  pub menu_speech_to_hold_frames : ℕ
  pub refractory_s : ℕ
  pub min_confidence : ℕ

-- A number of seconds in units of 1/8000 s.
abbrev pub seconds : ℕ → ℕ
seconds n = n * 8000

abbrev pub default_config : FsmConfig
default_config = record {
  enter_menu_frames = 5;
  enter_hold_frames = 3;
  dialing_to_hold_frames = 6;
  reenter_menu_frames = 3;
  enter_eval_frames = 2;
  leave_eval_frames = 5;
  non_connect_frames = 2;
  menu_refractory_s = seconds 10;
  menu_gap_frames = 4;
  max_menu_presses = 6;
  menu_noops_before_hold = 2;
  menu_speech_to_hold_frames = 6;
  refractory_s = seconds 8;
  min_confidence = 550;
}

pub record CallStateMachine : Type 0 where
  pub cfg : FsmConfig
  pub state : CallState
  pub streak_label : Option Label
  pub streak : ℕ
  pub refractory_until : ℕ
  pub menu_woken : Bool
  pub menu_refractory_until : ℕ
  pub menu_gap_seen : Bool
  pub menu_presses : ℕ
  pub menu_noops : ℕ

-- `CallStateMachine.__init__`
unfoldable pub new_machine : FsmConfig → CallStateMachine
new_machine cfg = record {
  cfg = cfg;
  state = CallState.dialing;
  streak_label = none;
  streak = 0;
  refractory_until = 0;
  menu_woken = false;
  menu_refractory_until = 0;
  menu_gap_seen = false;
  menu_presses = 0;
  menu_noops = 0;
}

abbrev pub same_label : Label → Option Label → Bool
same_label l none = false
same_label l (some k) = label_eq l k

-- `_streak_for`: the machine with its streak moved on, and the streak that this tick counts.
unfoldable pub streak_for : Label → ℕ → CallStateMachine → CallStateMachine × ℕ
streak_for label confidence m =
    if ltb confidence m.cfg.min_confidence
    then (m, 0)
    else if same_label label m.streak_label
    then (record m { streak = m.streak + 1 }, m.streak + 1)
    else (record m { streak_label = some label; streak = 1 }, 1)

-- `_enter`
unfoldable pub enter : CallState → CallStateMachine → CallStateMachine
enter s m =
    let t = record m { state = s; streak_label = none; streak = 0 } in
    if is_ivr_menu s
    then record t { menu_woken = false; menu_gap_seen = false; menu_noops = 0 }
    else t

-- `_fall_back_to_hold`
unfoldable pub fall_back_to_hold : ℕ → CallStateMachine → CallStateMachine
unfolding enter
fall_back_to_hold now m =
    enter CallState.on_hold (record m { refractory_until = now + m.cfg.refractory_s })

-- `_on_dialing`
unfoldable pub on_dialing : Label → ℕ → ℕ → CallStateMachine → CallStateMachine × Action
unfolding enter
on_dialing label streak now m =
    if (menu_labels label || is_live_speech_candidate label) && leb m.cfg.enter_menu_frames streak
    then (record (enter CallState.ivr_menu m) { menu_woken = true }, Action.wake_tier2_menu)
    else if is_hold_music label && leb m.cfg.dialing_to_hold_frames streak
    then (enter CallState.on_hold m, Action.nothing)
    else (m, Action.nothing)

-- The test of `_on_ivr_menu` that this "menu" was read in vain and is a queue.
abbrev pub read_in_vain : ℕ → CallStateMachine → Bool
read_in_vain now m =
    leb m.cfg.menu_noops_before_hold m.menu_noops && leb m.menu_refractory_until now

-- The end of `_on_ivr_menu`: the prompt's end is noted, and a new prompt wakes Tier 2.
unfoldable pub next_prompt : Label → ℕ → ℕ → CallStateMachine → CallStateMachine × Action
next_prompt label streak now m =
    let heard =
      (if hold_labels label && leb m.cfg.menu_gap_frames streak
        then record m { menu_gap_seen = true }
        else m) in
    if speechy_labels label
      && (heard.menu_gap_seen
          && (leb heard.menu_refractory_until now
              && (leb 2 streak && ltb heard.menu_presses heard.cfg.max_menu_presses)))
    then (record heard { menu_gap_seen = false; menu_woken = true }, Action.wake_tier2_menu)
    else (heard, Action.nothing)

-- `_on_ivr_menu`
unfoldable pub on_ivr_menu : Label → ℕ → ℕ → CallStateMachine → CallStateMachine × Action
unfolding enter next_prompt
on_ivr_menu label streak now m =
    if is_hold_music label && leb m.cfg.enter_hold_frames streak
    then (enter CallState.on_hold m, Action.nothing)
    else if read_in_vain now m && (hold_labels label && leb m.cfg.enter_hold_frames streak)
    then (enter CallState.on_hold m, Action.nothing)
    else if read_in_vain now m
        && (is_live_speech_candidate label && leb m.cfg.menu_speech_to_hold_frames streak)
    then (enter CallState.on_hold m, Action.nothing)
    else next_prompt label streak now m

-- `_on_on_hold`
unfoldable pub on_on_hold : Label → ℕ → ℕ → CallStateMachine → CallStateMachine × Action
unfolding enter
on_on_hold label streak now m =
    if menu_labels label && leb m.cfg.reenter_menu_frames streak
    then (enter CallState.ivr_menu m, Action.wake_tier2_menu)
    else if is_live_speech_candidate label
        && (leb m.refractory_until now && leb m.cfg.enter_eval_frames streak)
    then (enter CallState.evaluating_speech m, Action.wake_tier2_probe)
    else (m, Action.nothing)

-- `_on_evaluating_speech`
unfoldable pub on_evaluating_speech : Label → ℕ → ℕ → CallStateMachine → CallStateMachine × Action
unfolding fall_back_to_hold
on_evaluating_speech label streak now m =
    if hold_labels label && leb m.cfg.leave_eval_frames streak
    then (fall_back_to_hold now m, Action.nothing)
    else (m, Action.nothing)

-- `_HANDLERS`
unfoldable pub handlers : CallState → Label → ℕ → ℕ → CallStateMachine → CallStateMachine × Action
unfolding on_dialing on_ivr_menu on_on_hold on_evaluating_speech
handlers CallState.dialing label streak now m = on_dialing label streak now m
handlers CallState.ivr_menu label streak now m = on_ivr_menu label streak now m
handlers CallState.on_hold label streak now m = on_on_hold label streak now m
handlers CallState.evaluating_speech label streak now m = on_evaluating_speech label streak now m
handlers _ label streak now m = (m, Action.nothing)

-- `observe`
unfoldable pub observe : Label → ℕ → ℕ → CallStateMachine → CallStateMachine × Action
unfolding enter
observe label confidence now m =
    let (m', streak) = streak_for label confidence m in
    if live_states m'.state && (non_connect_labels label && leb m'.cfg.non_connect_frames streak)
    then (enter CallState.failed m', Action.fail)
    else handlers m'.state label streak now m'

-- `probe_result`
unfoldable pub probe_result : Bool → ℕ → CallStateMachine → CallStateMachine × Action
unfolding enter fall_back_to_hold
probe_result is_human now m =
    if is_evaluating_speech m.state
    then if is_human
      then (enter CallState.human_detected m, Action.bridge)
      else (fall_back_to_hold now m, Action.nothing)
    else (m, Action.nothing)

-- `note_menu_action`
unfoldable pub note_menu_action : ℕ → CallStateMachine → CallStateMachine
note_menu_action now m =
    if is_ivr_menu m.state
    then record m {
      menu_presses = m.menu_presses + 1;
      menu_woken = false;
      menu_gap_seen = false;
      menu_noops = 0;
      menu_refractory_until = now + m.cfg.menu_refractory_s;
    }
    else m

-- `note_menu_abstained`
unfoldable pub note_menu_abstained : CallStateMachine → CallStateMachine
note_menu_abstained m =
    if is_ivr_menu m.state then record m { menu_noops = m.menu_noops + 1 } else m

-- `bridged`
unfoldable pub bridged : CallStateMachine → CallStateMachine
unfolding enter
bridged m = if is_human_detected m.state then enter CallState.bridging m else m

-- `completed`
unfoldable pub completed : CallStateMachine → CallStateMachine
completed m = record m { state = CallState.done }

-- `failed`
unfoldable pub force_failed : CallStateMachine → CallStateMachine
force_failed m = record m { state = CallState.failed }

-- The place of a state in the enumeration, by which two states are compared.
unfoldable pub state_index : CallState → ℕ
state_index CallState.dialing = 0
state_index CallState.ivr_menu = 1
state_index CallState.on_hold = 2
state_index CallState.evaluating_speech = 3
state_index CallState.human_detected = 4
state_index CallState.bridging = 5
state_index CallState.done = 6
state_index CallState.failed = 7

abbrev pub state_eq : CallState → CallState → Bool
state_eq a b = state_index a == state_index b
