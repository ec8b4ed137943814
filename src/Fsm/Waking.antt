-- ===== src/Fsm/Waking.antt =====
-- What a sound that lasts brings about in state.py.
use mathlib.Core.List.{Memᴰ}
use dial_pass.Prelude.{
  ℕ, suc, ◌+◌, ◌≤◌, ◌<◌, ◌≡◌, ◌⊎◌, inl, inr, refl, sym, ◌∙◌, true, List, [], ◌∷◌, All, map, length,
  if◌then◌else◌, arith,
}
use dial_pass.Labels.{Label, menu_labels, non_connect_labels, index-injective}
use dial_pass.Fsm.{
  Action, CallState, CallStateMachine, FsmConfig, same_label, live_states, streak_for, handlers,
  observe,
}
use dial_pass.Fsm.Signals.{Signal, tick, signal, run, streak_for_keeps}

-- The confidence and the time of a tick.
abbrev pub Hearing : Type 0
Hearing = ℕ × ℕ

abbrev pub ticks_of : Label → List Hearing → List Signal
ticks_of l hs = map (λ h. tick l h.0 h.1) hs

-- The streak that the machine has of a label.
abbrev pub streak_of : Label → CallStateMachine → ℕ
streak_of l m = if same_label l m.streak_label then m.streak else 0

streak_for-confident :
    (l : Label) (c : ℕ) (m : CallStateMachine)
    → m.cfg.min_confidence ≤ c
    → let (m', k) = streak_for l c m in
      (k ≡ suc (streak_of l m)) × (streak_of l m' ≡ suc (streak_of l m))
unfolding streak_for
streak_for-confident l c m h = ground (arith, index-injective l l)

leb-cases : (a b : ℕ) → (a ≤ b) ⊎ (b < a)
leb-cases a b = ground arith

-- The ticks are confident, and none is before a time.
abbrev pub IsClear : ℕ → ℕ → Hearing → Type 0
IsClear least since h = (least ≤ h.0) × (since ≤ h.1)

-- In a state, a label that has been heard for long enough asks for an action, from a time on; until
-- then its ticks only move the streak on.
module _ (s : CallState) (l : Label) (a : Action) (frames : FsmConfig → ℕ)
    (since : CallStateMachine → ℕ)
    (since_streak : (c : ℕ) (m : CallStateMachine) → since (streak_for l c m).0 ≡ since m)
    (wakes : (c now : ℕ) (m : CallStateMachine)
      → m.state ≡ s
      → since m ≤ now
      → let (m', k) = streak_for l c m in
        (frames m.cfg ≤ k → (observe l c now m).1 ≡ a)
        × (k < frames m.cfg → observe l c now m ≡ (m', Action.nothing))) where
  wakes_within :
      (hs : List Hearing) (m : CallStateMachine) (least t n : ℕ)
      → m.state ≡ s
      → m.cfg.min_confidence ≡ least
      → since m ≡ t
      → frames m.cfg ≡ n
      → All (IsClear least t) hs
      → 0 < length hs
      → n ≤ streak_of l m + length hs
      → Memᴰ a (run (ticks_of l hs) m).1
  unfolding run signal
  wakes_within [] m least t n st lc tc nc clear some_ enough = absurd (omega (arith, some_))
  wakes_within ((c, now) ∷ hs) m least t n st lc tc nc clear some_ enough =
      let r : CallStateMachine × ℕ = streak_for l c m in
      let (counted, moved) = streak_for-confident l c m (ground (arith, clear.0)) in
      let (fires, waits) = wakes c now m st (ground (arith, clear.0)) in
      elim (leb-cases n r.1) [
        | inl long_enough ↦ Memᴰ.head (sym (fires (ground (arith, long_enough))))
        | inr short ↦
            let kept = streak_for_keeps l c m in
            Memᴰ.tail (
              rw (waits (ground (arith, short))) (
                wakes_within hs r.0 least t n (ground (arith, kept)) (ground (arith, kept))
                  (since_streak c m ∙ tc) (ground (arith, kept)) clear.1
                  (omega (arith, short, counted, enough)) (omega (arith, moved, enough))))
      ]

-- A tick on hold of a caller who may be a human, outside the cooldown.
hold_speech-wakes :
    (c now : ℕ) (m : CallStateMachine)
    → m.state ≡ CallState.on_hold
    → m.refractory_until ≤ now
    → let l = Label.live_speech_candidate in
      let (m', k) = streak_for l c m in
      (m.cfg.enter_eval_frames ≤ k → (observe l c now m).1 ≡ Action.wake_tier2_probe)
      × (k < m.cfg.enter_eval_frames → observe l c now m ≡ (m', Action.nothing))
unfolding observe handlers
hold_speech-wakes c now m s ready = ground (arith, streak_for_keeps Label.live_speech_candidate c m)

hold_menu-wakes :
    (l : Label) (c now : ℕ) (m : CallStateMachine)
    → menu_labels l ≡ true
    → m.state ≡ CallState.on_hold
    → let (m', k) = streak_for l c m in
      (m.cfg.reenter_menu_frames ≤ k → (observe l c now m).1 ≡ Action.wake_tier2_menu)
      × (k < m.cfg.reenter_menu_frames → observe l c now m ≡ (m', Action.nothing))
unfolding observe handlers
hold_menu-wakes l c now m menu s = ground (arith, streak_for_keeps l c m)

lost_line-fails :
    (s : CallState) (l : Label) (c now : ℕ) (m : CallStateMachine)
    → live_states s ≡ true
    → non_connect_labels l ≡ true
    → m.state ≡ s
    → let (m', k) = streak_for l c m in
      (m.cfg.non_connect_frames ≤ k → (observe l c now m).1 ≡ Action.fail)
      × (k < m.cfg.non_connect_frames → observe l c now m ≡ (m', Action.nothing))
unfolding observe handlers
lost_line-fails CallState.dialing l c now m live lost s = ground (arith, streak_for_keeps l c m)
lost_line-fails CallState.ivr_menu l c now m live lost s = ground (arith, streak_for_keeps l c m)
lost_line-fails CallState.on_hold l c now m live lost s = ground (arith, streak_for_keeps l c m)
lost_line-fails CallState.evaluating_speech l c now m live lost s =
    ground (arith, streak_for_keeps l c m)
lost_line-fails CallState.human_detected l c now m live lost s = ground (arith, live)
lost_line-fails CallState.bridging l c now m live lost s = ground (arith, live)
lost_line-fails CallState.done l c now m live lost s = ground (arith, live)
lost_line-fails CallState.failed l c now m live lost s = ground (arith, live)

-- On hold, confident ticks in a row of a caller who may be a human, as many as `enter_eval_frames`
-- asks for and none within the cooldown, wake the probe.
pub lasting_speech-wakes :
    (hs : List Hearing) (m : CallStateMachine)
    → m.state ≡ CallState.on_hold
    → All (IsClear m.cfg.min_confidence m.refractory_until) hs
    → 0 < length hs
    → m.cfg.enter_eval_frames ≤ length hs
    → Memᴰ Action.wake_tier2_probe (run (ticks_of Label.live_speech_candidate hs) m).1
lasting_speech-wakes hs m s clear some_ enough =
    wakes_within CallState.on_hold Label.live_speech_candidate Action.wake_tier2_probe
      FsmConfig.enter_eval_frames CallStateMachine.refractory_until
      (λ c m. (streak_for_keeps Label.live_speech_candidate c m).1) hold_speech-wakes hs m
      m.cfg.min_confidence m.refractory_until m.cfg.enter_eval_frames s refl refl refl clear some_
      (omega (arith, enough))

-- On hold, confident ticks in a row of one menu label, as many as `reenter_menu_frames` asks for, wake
-- Tier 2 for the menu.
pub lasting_menu-wakes :
    (l : Label) (hs : List Hearing) (m : CallStateMachine)
    → menu_labels l ≡ true
    → m.state ≡ CallState.on_hold
    → All (IsClear m.cfg.min_confidence 0) hs
    → 0 < length hs
    → m.cfg.reenter_menu_frames ≤ length hs
    → Memᴰ Action.wake_tier2_menu (run (ticks_of l hs) m).1
lasting_menu-wakes l hs m menu s clear some_ enough =
    wakes_within CallState.on_hold l Action.wake_tier2_menu FsmConfig.reenter_menu_frames (λ m. 0)
      (λ c m. refl) (λ c now m st since. hold_menu-wakes l c now m menu st) hs m
      m.cfg.min_confidence 0 m.cfg.reenter_menu_frames s refl refl refl clear some_
      (omega (arith, enough))

-- In a live state, confident ticks in a row of one label of a lost line, as many as
-- `non_connect_frames` asks for, make the machine ask to fail the call.
pub lasting_loss-fails :
    (l : Label) (hs : List Hearing) (m : CallStateMachine)
    → non_connect_labels l ≡ true
    → live_states m.state ≡ true
    → All (IsClear m.cfg.min_confidence 0) hs
    → 0 < length hs
    → m.cfg.non_connect_frames ≤ length hs
    → Memᴰ Action.fail (run (ticks_of l hs) m).1
lasting_loss-fails l hs m lost live clear some_ enough =
    wakes_within m.state l Action.fail FsmConfig.non_connect_frames (λ m. 0) (λ c m. refl)
      (λ c now k st since. lost_line-fails m.state l c now k live lost st) hs m m.cfg.min_confidence
      0 m.cfg.non_connect_frames refl refl refl refl clear some_ (omega (arith, enough))
