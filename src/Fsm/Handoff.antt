-- ===== src/Fsm/Handoff.antt =====
-- Who may bridge a call in state.py.
use mathlib.Core.List.{Memᴰ}
use dial_pass.Prelude.{
  ℕ, ◌≡◌, ◌≢◌, ◌↔◌, ◌⊎◌, inl, inr, refl, sym, Bool, true, false, List, [], All, ◌∷◌, arith,
}
use dial_pass.Labels.{Label}
use dial_pass.Fsm.{
  CallState, Action, FsmConfig, CallStateMachine, new_machine, streak_for, handlers, observe,
  probe_result, note_menu_action, note_menu_abstained, bridged, completed, force_failed,
}
use dial_pass.Fsm.Signals.{
  Signal, tick, probed, pressed, abstained, handed_over, told_completed, told_failed, signal, run,
  streak_for_keeps,
}

-- The signal is not a probe's verdict that a human answered.
abbrev pub NoHuman : Signal → Type 0
NoHuman (probed is_human now) = is_human ≡ false
NoHuman _ = Unit

-- The states of a call that no human has been found on.
abbrev pub unanswered : CallState → Bool
unanswered CallState.human_detected = false
unanswered CallState.bridging = false
unanswered _ = true

handlers-unanswered :
    (s : CallState) (l : Label) (k now : ℕ) (m : CallStateMachine)
    → m.state ≡ s
    → unanswered s ≡ true
    → let (m', a) = handlers s l k now m in
      (unanswered m'.state ≡ true)
      × (a ≢ Action.bridge)
      × (m'.state ≡ CallState.done → s ≡ CallState.done)
unfolding handlers
handlers-unanswered CallState.dialing l k now m e h = ground arith
handlers-unanswered CallState.ivr_menu l k now m e h = ground arith
handlers-unanswered CallState.on_hold l k now m e h = ground arith
handlers-unanswered CallState.evaluating_speech l k now m e h = ground arith
handlers-unanswered _ l k now m e h = ground arith

-- What a signal keeps of a call that no human has been found on.
abbrev StaysUnanswered : Signal → CallStateMachine → Type 0
StaysUnanswered s m =
    let (m', a) = signal s m in
    (unanswered m'.state ≡ true)
    × (a ≢ Action.bridge)
    × (m'.state ≡ CallState.done → (m.state ≡ CallState.done) ⊎ (s ≡ told_completed))

observe-unanswered :
    (l : Label) (c now : ℕ) (m : CallStateMachine)
    → unanswered m.state ≡ true
    → let (m', a) = observe l c now m in
      (unanswered m'.state ≡ true)
      × (a ≢ Action.bridge)
      × (m'.state ≡ CallState.done → m.state ≡ CallState.done)
unfolding observe
observe-unanswered l c now m h =
    let m' : CallStateMachine = (streak_for l c m).0 in
    let k : ℕ = (streak_for l c m).1 in
    ground (arith, streak_for_keeps l c m, handlers-unanswered m'.state l k now m' refl)

signal-unanswered :
    (s : Signal) (m : CallStateMachine)
    → NoHuman s
    → unanswered m.state ≡ true
    → StaysUnanswered s m
unfolding signal probe_result note_menu_action note_menu_abstained bridged completed force_failed
signal-unanswered (tick l c now) m u h =
    let (stays, quiet, over) = observe-unanswered l c now m h in (stays, quiet, λ e. inl (over e))
signal-unanswered (probed is_human now) m u h =
    (ground arith, ground arith, λ e. inl (ground arith))
signal-unanswered (pressed now) m u h = (ground arith, ground arith, λ e. inl (ground arith))
signal-unanswered abstained m u h = (ground arith, ground arith, λ e. inl (ground arith))
signal-unanswered handed_over m u h = (ground arith, ground arith, λ e. inl (ground arith))
signal-unanswered told_completed m u h = (refl, ground arith, λ e. inr refl)
signal-unanswered told_failed m u h = (refl, ground arith, λ e. cc e)

run-unanswered :
    (r : List Signal) (m : CallStateMachine)
    → All NoHuman r
    → unanswered m.state ≡ true
    → (unanswered (run r m).0.state ≡ true)
      × All (λ a. a ≢ Action.bridge) (run r m).1
      × ((run r m).0.state ≡ CallState.done → (m.state ≡ CallState.done) ⊎ Memᴰ told_completed r)
unfolding run
run-unanswered [] m u h = (h, tt, λ e. inl e)
run-unanswered (s ∷ r) m u h =
    let (kept, quiet, over) = signal-unanswered s m u.0 h in
    let (stays, silent, ends) = run-unanswered r (signal s m).0 u.1 kept in
    (
      stays,
      (quiet, silent),
      λ e. elim (ends e) [
        | inr later ↦ inr (Memᴰ.tail later)
        | inl now ↦ elim (over now) [
          | inl before ↦ inl before
          | inr told ↦ inr (Memᴰ.head (sym told))
        ]
      ],
    )

-- From a new machine, calls of its methods with no verdict of a human among them never ask for a
-- bridge and never reach HUMAN_DETECTED or BRIDGING; and they reach DONE only if `completed` is
-- among them.
pub no_bridge_unconfirmed :
    (cfg : FsmConfig) (r : List Signal)
    → All NoHuman r
    → let (m, actions) = run r (new_machine cfg) in
      (unanswered m.state ≡ true)
      × All (λ a. a ≢ Action.bridge) actions
      × (m.state ≡ CallState.done → Memᴰ told_completed r)
unfolding new_machine
no_bridge_unconfirmed cfg r u =
    let (stays, silent, ends) = run-unanswered r (new_machine cfg) u refl in
    (stays, silent, λ e. elim (ends e) [ inl start ↦ cc start | inr told ↦ told ])

handlers_no_bridge :
    (s : CallState) (l : Label) (k now : ℕ) (m : CallStateMachine)
    → (handlers s l k now m).1 ≢ Action.bridge
unfolding handlers
handlers_no_bridge CallState.dialing l k now m = ground arith
handlers_no_bridge CallState.ivr_menu l k now m = ground arith
handlers_no_bridge CallState.on_hold l k now m = ground arith
handlers_no_bridge CallState.evaluating_speech l k now m = ground arith
handlers_no_bridge _ l k now m = ground arith

pub observe_no_bridge :
    (l : Label) (c now : ℕ) (m : CallStateMachine) → (observe l c now m).1 ≢ Action.bridge
unfolding observe
observe_no_bridge l c now m =
    let m' : CallStateMachine = (streak_for l c m).0 in
    let k : ℕ = (streak_for l c m).1 in ground (arith, handlers_no_bridge m'.state l k now m')

pub handlers_no_fail :
    (s : CallState) (l : Label) (k now : ℕ) (m : CallStateMachine)
    → (handlers s l k now m).1 ≢ Action.fail
unfolding handlers
handlers_no_fail CallState.dialing l k now m = ground arith
handlers_no_fail CallState.ivr_menu l k now m = ground arith
handlers_no_fail CallState.on_hold l k now m = ground arith
handlers_no_fail CallState.evaluating_speech l k now m = ground arith
handlers_no_fail _ l k now m = ground arith

-- A tick that asks to fail has set FAILED.
pub observe-fail-state :
    (l : Label) (c now : ℕ) (m : CallStateMachine)
    → (observe l c now m).1 ≡ Action.fail
    → (observe l c now m).0.state ≡ CallState.failed
unfolding observe
observe-fail-state l c now m h =
    let m' : CallStateMachine = (streak_for l c m).0 in
    let k : ℕ = (streak_for l c m).1 in ground (arith, handlers_no_fail m'.state l k now m')

-- A verdict asks for nothing, or for a bridge where a probe was awaited and a human answered.
pub probe_result_cases :
    (is_human : Bool) (now : ℕ) (m : CallStateMachine)
    → let a = (probe_result is_human now m).1 in
      (a ≡ Action.nothing)
      ⊎ ((a ≡ Action.bridge) × (m.state ≡ CallState.evaluating_speech) × (is_human ≡ true))
unfolding probe_result
probe_result_cases is_human now m = ground arith

-- A signal asks for a bridge exactly when it is a verdict of a human while a probe is awaited.
pub bridge_iff :
    (s : Signal) (m : CallStateMachine)
    → ((signal s m).1 ≡ Action.bridge)
      ↔ ((m.state ≡ CallState.evaluating_speech) × ((t : ℕ) × (s ≡ probed true t)))
unfolding signal probe_result
bridge_iff (tick l c now) m = (λ h. absurd (observe_no_bridge l c now m h), λ h. cc h.1.1)
bridge_iff (probed is_human now) m =
    (λ h. (ground arith, (now, ground arith)), λ h. ground (arith, h.0, h.1.1))
bridge_iff (pressed now) m = (λ h. cc, λ h. cc h.1.1)
bridge_iff abstained m = (λ h. cc, λ h. cc h.1.1)
bridge_iff handed_over m = (λ h. cc, λ h. cc h.1.1)
bridge_iff told_completed m = (λ h. cc, λ h. cc h.1.1)
bridge_iff told_failed m = (λ h. cc, λ h. cc h.1.1)
