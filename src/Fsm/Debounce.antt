-- ===== src/Fsm/Debounce.antt =====
-- The thresholds of state.py: a tick leaves a state only at the end of a long enough run.
use mathlib.Core.Path.{subst}
use dial_pass.Prelude.{
  ℕ, zero, suc, ◌≤◌, ◌≡◌, ◌≢◌, ◌↔◌, refl, sym, ap, ◌∙◌, true, List, [], ◌∷◌, if_elim, if◌then◌else◌,
  arith,
}
use dial_pass.Fsm.{
  CallState, FsmConfig, CallStateMachine, new_machine, streak_for, enter, fall_back_to_hold,
  observe, probe_result, note_menu_action, note_menu_abstained, bridged, completed, force_failed,
  live_states, state_index, state_eq,
}
use dial_pass.Fsm.Signals.{
  Signal, tick, probed, pressed, abstained, handed_over, told_completed, told_failed, signal, run,
}
use dial_pass.Fsm.Threshold.{
  threshold, IsDebounced, threshold-pos, streak_for-state, observe-streak, handlers-streak,
  observe-live,
}
use dial_pass.Fsm.Streak.{Tick, Tracks, run_length, streak_for-Tracks, streak_for-eq-run}

module _ (t : Tick) (h : List Tick) (now : ℕ) (m : CallStateMachine) (tracked : Tracks h m) where
  -- A tick that stays in the state is added to the ticks heard there.
  pub observe-Tracks_stay :
      (observe t.label t.confidence now m).0.state ≡ m.state
      → Tracks (t ∷ h) (observe t.label t.confidence now m).0
  unfolding observe
  observe-Tracks_stay same =
      let m' : CallStateMachine = (streak_for t.label t.confidence m).0 in
      let k : ℕ = (streak_for t.label t.confidence m).1 in
      ground (
        arith,
        streak_for-state t.label t.confidence m,
        streak_for-Tracks t h m tracked,
        handlers-streak m'.state t.label k now m' refl,
      )

  -- A tick that leaves the state starts the account of the new one.
  pub observe-Tracks_leave :
      (observe t.label t.confidence now m).0.state ≢ m.state
      → Tracks [] (observe t.label t.confidence now m).0
  unfolding observe
  observe-Tracks_leave moved =
      let m' : CallStateMachine = (streak_for t.label t.confidence m).0 in
      let k : ℕ = (streak_for t.label t.confidence m).1 in
      ground (
        arith,
        streak_for-state t.label t.confidence m,
        handlers-streak m'.state t.label k now m' refl,
      )

  debounced_from :
      IsDebounced m.cfg
      → (observe t.label t.confidence now m).0.state ≢ m.state
      → (m.cfg.min_confidence ≤ t.confidence)
        × (threshold m.cfg m.state t.label ≤ run_length m.cfg.min_confidence t.label (t ∷ h))
  debounced_from d moved = ground (
    arith,
    observe-streak t.label t.confidence now m moved,
    observe-live t now m moved,
    threshold-pos m.cfg m.state t.label d,
    streak_for-eq-run t h m tracked,
  )

state_at : ℕ → CallState
state_at zero = CallState.dialing
state_at (suc zero) = CallState.ivr_menu
state_at (suc (suc zero)) = CallState.on_hold
state_at (suc (suc (suc zero))) = CallState.evaluating_speech
state_at (suc (suc (suc (suc zero)))) = CallState.human_detected
state_at (suc (suc (suc (suc (suc zero))))) = CallState.bridging
state_at (suc (suc (suc (suc (suc (suc zero)))))) = CallState.done
state_at _ = CallState.failed

state_at-state_index : (s : CallState) → state_at (state_index s) ≡ s
unfolding state_at state_index
state_at-state_index CallState.dialing = refl
state_at-state_index _ = refl

state_eq_iff : (a b : CallState) → (state_eq a b ≡ true) ↔ (a ≡ b)
state_eq_iff a b = (
  λ h.
      let e : state_index a ≡ state_index b = ground arith in
      cc (ap state_at e, state_at-state_index a, state_at-state_index b),
  λ e. rw e (ground arith),
)

-- The ticks heard by a machine since it entered its state, latest first: what it has heard so far
-- with what it hears in a run of calls of its methods.
abbrev pub add_tick : Signal → List Tick → List Tick
add_tick (tick l c now) h = record { label = l; confidence = c } ∷ h
add_tick _ h = h

abbrev pub heard_since : CallStateMachine → CallStateMachine → Signal → List Tick → List Tick
heard_since m m' s h = if state_eq m'.state m.state then add_tick s h else []

abbrev pub heard : List Signal → CallStateMachine → List Tick → List Tick
heard [] m h = h
heard (s ∷ r) m h = let m' = (signal s m).0 in heard r m' (heard_since m m' s h)

-- While a machine is in a live state, its streak is the run of the ticks that it heard there.
record IsTracked (c : FsmConfig) (h : List Tick) (m : CallStateMachine) : Type 0 where
  config : m.cfg ≡ c
  live : live_states m.state ≡ true → Tracks h m

signal-cfg : (s : Signal) (m : CallStateMachine) → (signal s m).0.cfg ≡ m.cfg
unfolding signal observe probe_result note_menu_action note_menu_abstained bridged completed
    force_failed fall_back_to_hold enter
signal-cfg (tick l c now) m =
    let m' : CallStateMachine = (streak_for l c m).0 in
    let k : ℕ = (streak_for l c m).1 in
    ground (arith, streak_for-state l c m, handlers-streak m'.state l k now m' refl)
signal-cfg (probed is_human now) m = ground arith
signal-cfg (pressed now) m = ground arith
signal-cfg abstained m = ground arith
signal-cfg handed_over m = ground arith
signal-cfg told_completed m = refl
signal-cfg told_failed m = refl

observe-heard :
    (t : Tick) (now : ℕ) (h : List Tick) (m : CallStateMachine)
    → (live_states m.state ≡ true → Tracks h m)
    → let m' = (observe t.label t.confidence now m).0 in
      live_states m'.state ≡ true → Tracks (if state_eq m'.state m.state then t ∷ h else []) m'
observe-heard t now h m tracked alive =
    let m' : CallStateMachine = (observe t.label t.confidence now m).0 in
    if_elim {A = List Tick} (λ l. Tracks l m') (state_eq m'.state m.state)
      (λ e.
        let same : m'.state ≡ m.state = (state_eq_iff m'.state m.state).0 e in
        observe-Tracks_stay t h now m (tracked (rw (← same) alive)) same)
      (λ e.
        let moved : m'.state ≢ m.state = λ p. cc ((state_eq_iff m'.state m.state).1 p, e) in
        observe-Tracks_leave t h now m (tracked (observe-live t now m moved)) moved)

signal-Tracks :
    (s : Signal) (h : List Tick) (m : CallStateMachine)
    → (live_states m.state ≡ true → Tracks h m)
    → live_states (signal s m).0.state ≡ true
    → Tracks (heard_since m (signal s m).0 s h) (signal s m).0
unfolding signal probe_result note_menu_action note_menu_abstained bridged completed force_failed
    state_index
signal-Tracks (tick l c now) h m tracked alive =
    observe-heard (record { label = l; confidence = c }) now h m tracked alive
signal-Tracks (probed is_human now) h m tracked alive = ground arith
signal-Tracks (pressed now) h m tracked alive = ground arith
signal-Tracks abstained h m tracked alive = ground arith
signal-Tracks handed_over h m tracked alive = ground arith
signal-Tracks told_completed h m tracked alive = cc alive
signal-Tracks told_failed h m tracked alive = cc alive

run-IsTracked :
    (c : FsmConfig) (r : List Signal) (h : List Tick) (m : CallStateMachine)
    → IsTracked c h m
    → IsTracked c (heard r m h) (run r m).0
unfolding run
run-IsTracked c [] h m k = k
run-IsTracked c (s ∷ r) h m k =
    run-IsTracked c r (heard_since m (signal s m).0 s h) (signal s m).0
      (record { config = signal-cfg s m ∙ k.config; live = signal-Tracks s h m k.live })

-- Whatever methods of a new machine are called, with every threshold at least one tick: a tick that
-- changes the state is confident, and it ends a run of the same label, over the confident ticks heard
-- since the state was entered, that is as long as the state's threshold for the label.
pub observe_debounced :
    (cfg : FsmConfig) (r : List Signal) (t : Tick) (now : ℕ)
    → IsDebounced cfg
    → let m = (run r (new_machine cfg)).0 in
      let h = heard r (new_machine cfg) [] in
      (observe t.label t.confidence now m).0.state ≢ m.state
      → (cfg.min_confidence ≤ t.confidence)
        × (threshold cfg m.state t.label ≤ run_length cfg.min_confidence t.label (t ∷ h))
unfolding new_machine
observe_debounced cfg r t now d moved =
    let start : CallStateMachine = new_machine cfg in
    let m : CallStateMachine = (run r start).0 in
    let h : List Tick = heard r start [] in
    let k : IsTracked cfg h m =
      run-IsTracked cfg r [] start
        (record { config = refl; live = λ _. record { label = refl; count = refl } }) in
    let tracked : Tracks h m = k.live (observe-live t now m moved) in
    subst
      (λ c.
        (c.min_confidence ≤ t.confidence)
        × (threshold c m.state t.label ≤ run_length c.min_confidence t.label (t ∷ h)))
      k.config (debounced_from t h now m tracked (subst IsDebounced (sym k.config) d) moved)
