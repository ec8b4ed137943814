-- ===== src/Classifier/Rules.antt =====
-- What the rules of classifier.py can make the state machine of state.py do.
use dial_pass.Prelude.{ℕ, ◌≤◌, ◌≡◌, ◌≢◌, ◌⊎◌, false, arith}
use dial_pass.Labels.{Label, menu_labels, non_connect_labels}
use dial_pass.Fsm.{
  CallState, CallStateMachine, Action, observe, handlers, default_config, on_on_hold, enter,
  streak_for,
}
use dial_pass.Fsm.Handoff.{handlers_no_fail}
use dial_pass.Fsm.Signals.{streak_for_keeps}
use dial_pass.Session.{Classification}
use dial_pass.Classifier.{Features, classify}

-- The classifier never gives a label of a menu or of a line that did not connect, and it gives every
-- label but `UNKNOWN` with a confidence that the machine, as configured by default, counts.
pub classify_cases :
    (f : Features)
    → let c = classify f in
      (menu_labels c.label ≡ false)
      × (non_connect_labels c.label ≡ false)
      × ((c.label ≡ Label.unknown) ⊎ (default_config.min_confidence ≤ c.confidence))
unfolding classify
classify_cases f = ground arith

hold_without_menu :
    (l : Label) (streak now : ℕ) (m : CallStateMachine)
    → menu_labels l ≡ false
    → m.state ≡ CallState.on_hold
    → (handlers m.state l streak now m).0.state ≢ CallState.ivr_menu
unfolding handlers on_on_hold enter
hold_without_menu l streak now m quiet e = ground arith

-- On what the classifier hears the machine never fails the call, and on hold it never goes back to
-- a menu.
pub heuristic_never_fails :
    (f : Features) (now : ℕ) (m : CallStateMachine)
    → let c = classify f in
      ((observe c.label c.confidence now m).1 ≢ Action.fail)
      × (m.state ≡ CallState.on_hold
          → (observe c.label c.confidence now m).0.state ≢ CallState.ivr_menu)
unfolding observe
heuristic_never_fails f now m =
    let c : Classification = classify f in
    let m' : CallStateMachine = (streak_for c.label c.confidence m).0 in
    let streak : ℕ = (streak_for c.label c.confidence m).1 in
    ground (
      arith,
      classify_cases f,
      streak_for_keeps c.label c.confidence m,
      handlers_no_fail m'.state c.label streak now m',
      hold_without_menu c.label streak now m',
    )
