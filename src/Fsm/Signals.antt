-- ===== src/Fsm/Signals.antt =====
-- The calls that are made of the state machine of state.py, in any order.
use dial_pass.Prelude.{ℕ, ◌≡◌, Bool, List, [], All, ◌∷◌, arith}
use dial_pass.Labels.{Label}
use dial_pass.Fsm.{
  Action, CallStateMachine, streak_for, observe, probe_result, note_menu_action,
  note_menu_abstained, bridged, completed, force_failed,
}

-- A call of a method of the machine, with the time it is made at: `observe`, `probe_result`,
-- `note_menu_action`, `note_menu_abstained`, `bridged`, `completed` and `failed`.
pub data Signal : Type 0 where
  tick : Label → ℕ → ℕ → Signal
  probed : Bool → ℕ → Signal
  pressed : ℕ → Signal
  abstained handed_over told_completed told_failed : Signal

unfoldable pub signal : Signal → CallStateMachine → CallStateMachine × Action
signal (tick l c now) m = observe l c now m
signal (probed is_human now) m = probe_result is_human now m
signal (pressed now) m = (note_menu_action now m, Action.nothing)
signal abstained m = (note_menu_abstained m, Action.nothing)
signal handed_over m = (bridged m, Action.nothing)
signal told_completed m = (completed m, Action.nothing)
signal told_failed m = (force_failed m, Action.nothing)

-- The machine after the signals, and the actions that they asked for.
unfoldable pub run : List Signal → CallStateMachine → CallStateMachine × List Action
run [] m = (m, [])
run (s ∷ r) m = let (m', a) = signal s m in let (end, rest) = run r m' in (end, a ∷ rest)

-- An invariant of every signal of a kind, and a fact about each action, hold over a run.
module _ (Allowed : Signal → Type 0) (P : CallStateMachine → Type 0) (Q : Action → Type 0)
    (keep : (s : Signal) (m : CallStateMachine)
      → Allowed s
      → P m
      → P (signal s m).0 × Q (signal s m).1) where
  pub run_induction :
      (r : List Signal) (m : CallStateMachine)
      → All Allowed r
      → P m
      → P (run r m).0 × All Q (run r m).1
  unfolding run
  run_induction [] m allowed p = (p, tt)
  run_induction (s ∷ r) m allowed p =
      let kept : P (signal s m).0 × Q (signal s m).1 = keep s m allowed.0 p in
      let rest : P (run r (signal s m).0).0 × All Q (run r (signal s m).0).1 =
        run_induction r (signal s m).0 allowed.1 kept.0 in
      (rest.0, (kept.1, rest.1))

pub streak_for_keeps :
    (l : Label) (c : ℕ) (m : CallStateMachine)
    → let m' = (streak_for l c m).0 in
      (m'.state ≡ m.state)
      × (m'.refractory_until ≡ m.refractory_until)
      × (m'.menu_gap_seen ≡ m.menu_gap_seen)
      × (m'.cfg ≡ m.cfg)
      × (m'.menu_presses ≡ m.menu_presses)
unfolding streak_for
streak_for_keeps l c m = ground arith
