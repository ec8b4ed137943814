-- ===== src/Fsm/Cooldown.antt =====
-- The cooldown of state.py after a probe that heard no human.
use dial_pass.Prelude.{ℕ, ◌+◌, ◌<◌, ◌≡◌, ◌≢◌, refl, false, List, All, arith}
use dial_pass.Labels.{Label}
use dial_pass.Fsm.{
  CallState, Action, CallStateMachine, streak_for, handlers, observe, probe_result,
  note_menu_action, note_menu_abstained, bridged, completed, force_failed,
}
use dial_pass.Fsm.Signals.{
  Signal, tick, probed, pressed, abstained, handed_over, told_completed, told_failed, signal, run,
  run_induction, streak_for_keeps,
}

abbrev pub IsBefore : ℕ → Signal → Type 0
IsBefore u (tick l c now) = now < u
IsBefore u (probed is_human now) = now < u
IsBefore u (pressed now) = now < u
IsBefore u abstained = Unit
IsBefore u handed_over = Unit
IsBefore u told_completed = Unit
IsBefore u told_failed = Unit

-- Not probing, with the cooldown set to end at `u`.
pub record IsCooling (u : ℕ) (m : CallStateMachine) : Type 0 where
  pub cooldown : m.refractory_until ≡ u
  pub quiet : m.state ≢ CallState.evaluating_speech

handlers-IsCooling :
    (u : ℕ) (s : CallState) (l : Label) (k now : ℕ) (m : CallStateMachine)
    → m.state ≡ s
    → now < u
    → IsCooling u m
    → IsCooling u (handlers s l k now m).0 × ((handlers s l k now m).1 ≢ Action.wake_tier2_probe)
unfolding handlers
handlers-IsCooling u CallState.dialing l k now m e early c = ground arith
handlers-IsCooling u CallState.ivr_menu l k now m e early c = ground arith
handlers-IsCooling u CallState.on_hold l k now m e early c = ground arith
handlers-IsCooling u CallState.evaluating_speech l k now m e early c = absurd (c.quiet e)
handlers-IsCooling u _ l k now m e early c = ground arith

observe-IsCooling :
    (u : ℕ) (l : Label) (c now : ℕ) (m : CallStateMachine)
    → now < u
    → IsCooling u m
    → IsCooling u (observe l c now m).0 × ((observe l c now m).1 ≢ Action.wake_tier2_probe)
unfolding observe
observe-IsCooling u l c now m early cool =
    let m' : CallStateMachine = (streak_for l c m).0 in
    let k : ℕ = (streak_for l c m).1 in
    ground (arith, streak_for_keeps l c m, handlers-IsCooling u m'.state l k now m' refl early)

signal-IsCooling :
    (u : ℕ) (s : Signal) (m : CallStateMachine)
    → IsBefore u s
    → IsCooling u m
    → IsCooling u (signal s m).0 × ((signal s m).1 ≢ Action.wake_tier2_probe)
unfolding signal probe_result note_menu_action note_menu_abstained bridged completed force_failed
signal-IsCooling u (tick l c now) m early cool = observe-IsCooling u l c now m early cool
signal-IsCooling u (probed is_human now) m early cool = ground arith
signal-IsCooling u (pressed now) m early cool = ground arith
signal-IsCooling u abstained m early cool = ground arith
signal-IsCooling u handed_over m early cool = ground arith
signal-IsCooling u told_completed m early cool = ground arith
signal-IsCooling u told_failed m early cool = ground arith

-- A probe that heard no human sends the machine to ON_HOLD, and no signal at a time before the
-- cooldown's end asks for another probe.
pub no_probe_in_cooldown :
    (m : CallStateMachine) (t : ℕ) (r : List Signal)
    → m.state ≡ CallState.evaluating_speech
    → All (IsBefore (t + m.cfg.refractory_s)) r
    → let m' = (probe_result false t m).0 in
      (m'.state ≡ CallState.on_hold) × All (λ a. a ≢ Action.wake_tier2_probe) (run r m').1
unfolding probe_result
no_probe_in_cooldown m t r e early =
    let u : ℕ = t + m.cfg.refractory_s in
    let m' : CallStateMachine = (probe_result false t m).0 in
    ground (
      arith,
      run_induction (IsBefore u) (IsCooling u) (λ a. a ≢ Action.wake_tier2_probe)
          (signal-IsCooling u) r m' early (ground arith),
    )
