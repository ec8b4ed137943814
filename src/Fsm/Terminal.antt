-- ===== src/Fsm/Terminal.antt =====
-- The end of a call in state.py: DONE and FAILED.
use dial_pass.Prelude.{ℕ, ◌≡◌, refl, sym, ap, ◌∙◌, Bool, true, false, List, [], All, ◌∷◌, arith}
use dial_pass.Labels.{Label}
use dial_pass.Fsm.{
  CallState, Action, CallStateMachine, handlers, observe, probe_result, note_menu_action,
  note_menu_abstained, bridged, completed, force_failed,
}
use dial_pass.Fsm.Signals.{
  Signal, tick, probed, pressed, abstained, handed_over, told_completed, told_failed, signal, run,
  streak_for_keeps,
}

abbrev pub is_terminal : CallState → Bool
is_terminal CallState.done = true
is_terminal CallState.failed = true
is_terminal _ = false

observe-terminal :
    (l : Label) (c now : ℕ) (m : CallStateMachine)
    → is_terminal m.state ≡ true
    → ((observe l c now m).0.state ≡ m.state) × ((observe l c now m).1 ≡ Action.nothing)
unfolding observe handlers
observe-terminal l c now m h = ground (arith, streak_for_keeps l c m)

-- How a call that is over stands after the signals: only `completed` and `failed` set its state.
abbrev pub ending : CallState → List Signal → CallState
ending e [] = e
ending e (told_completed ∷ r) = ending CallState.done r
ending e (told_failed ∷ r) = ending CallState.failed r
ending e (_ ∷ r) = ending e r

signal-terminal :
    (s : Signal) (m : CallStateMachine)
    → is_terminal m.state ≡ true
    → ((signal s m).0.state ≡ ending m.state (s ∷ [])) × ((signal s m).1 ≡ Action.nothing)
unfolding signal probe_result note_menu_action note_menu_abstained bridged completed force_failed
signal-terminal (tick l c now) m h = ground (arith, observe-terminal l c now m)
signal-terminal (probed is_human now) m h = ground arith
signal-terminal (pressed now) m h = ground arith
signal-terminal abstained m h = ground arith
signal-terminal handed_over m h = ground arith
signal-terminal told_completed m h = (refl, refl)
signal-terminal told_failed m h = (refl, refl)

ending-cons :
    (e : CallState) (s : Signal) (r : List Signal) → ending e (s ∷ r) ≡ ending (ending e (s ∷ [])) r
ending-cons e told_completed r = refl
ending-cons e told_failed r = refl
ending-cons e _ r = refl

ending-terminal :
    (e : CallState) (s : Signal) → is_terminal e ≡ true → is_terminal (ending e (s ∷ [])) ≡ true
ending-terminal e told_completed h = refl
ending-terminal e told_failed h = refl
ending-terminal e _ h = h

-- A machine that is in DONE or FAILED never leaves these two and asks for nothing, whatever methods
-- are called; and its state is the one it was in, or that of the last `completed` or `failed` call
-- among them.
pub terminal_absorbs :
    (m : CallStateMachine) (r : List Signal)
    → is_terminal m.state ≡ true
    → (is_terminal (run r m).0.state ≡ true)
      × ((run r m).0.state ≡ ending m.state r)
      × All (λ a. a ≡ Action.nothing) (run r m).1
unfolding run
terminal_absorbs m [] h = (h, refl, tt)
terminal_absorbs m (s ∷ r) h =
    let (state, quiet) = signal-terminal s m h in
    let kept : is_terminal (signal s m).0.state ≡ true = rw state (ending-terminal m.state s h) in
    let (over, last, silent) = terminal_absorbs (signal s m).0 r kept in
    (over, last ∙ (ap (λ e. ending e r) state ∙ sym (ending-cons m.state s r)), (quiet, silent))
