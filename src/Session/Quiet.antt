-- ===== src/Session/Quiet.antt =====
-- When session.py calls `on_bridge`: what the operations keep of a world up to that call.
use dial_pass.Prelude.{
  ℕ, ◌≡◌, ◌≢◌, refl, String, Bool, true, not, ◌&&◌, Option, none, some, str_eq, is_some, if_elim,
  arith,
}
use dial_pass.Fsm
use dial_pass.Fsm.{
  Action, CallState, CallStateMachine, is_ivr_menu, observe, note_menu_action, note_menu_abstained,
}
use dial_pass.Fsm.Handoff.{observe_no_bridge}
use dial_pass.Breaker.{Error, value}
use dial_pass.Tier2.{ProbeOutcome, verdict, Job}
use dial_pass.Telemetry.Events.{Kind, menu, probe, Body, Event, dtmf_sent}
use dial_pass.Session.{
  Session, Host, Handoff, underway, unavailable, broken, is_due, emit, emit_state_change, fail,
  finish_bridge, after_on_bridge, bridge, start_menu, start_probe, dispatch, press, apply_digits,
  on_error, wake_due_menu, observe_frame,
}

-- What holds of the world until `on_bridge` is called, by whether the call is over, which every other
-- hook keeps; and what a poll that hands over the verdict of a human shows of such a world.
pub record QuietLaws {Sample W : Type 0} (host : Host Sample W) : Type 1 where
  pub Quiet : Bool → W → Type 0
  pub Confirmed : Type 0
  pub emit_quiet : (b : Bool) (e : Event) (w : W) → Quiet b w → Quiet b (host.emit e w)
  pub dtmf_quiet : (b : Bool) (d : String) (w : W) → Quiet b w → Quiet b (host.dtmf_sender d w).1
  pub fail_quiet : (b : Bool) (r : String) (w : W) → Quiet b w → Quiet true (host.on_fail r w)
  pub submit_quiet : (b : Bool) (j : Job Sample) (w : W) → Quiet b w → Quiet b (host.submit j w)
  pub poll_quiet : (b : Bool) (w : W) → Quiet b w → Quiet b (host.poll w).1
  pub confirm :
      (b : Bool) (w : W) (o : ProbeOutcome)
      → Quiet b w
      → (host.poll w).0 ≡ some (value (verdict o))
      → o.is_human ≡ true
      → Confirmed

module _ {Sample W : Type 0} (host : Host Sample W) (laws : QuietLaws host) where
  open laws use {
    Quiet, Confirmed, emit_quiet, dtmf_quiet, fail_quiet, submit_quiet, poll_quiet, confirm,
  }

  abbrev pub IsQuiet : Session Sample W → Type 0
  IsQuiet s = Quiet s.finished s.world

  -- The session has just called `on_bridge`, on a quiet world, for a human who was confirmed.
  pub record IsHanded (t : Session Sample W) : Type 0 where
    pub now : ℕ
    pub before : Session Sample W
    pub quiet : IsQuiet before
    pub confirmed : Confirmed
    pub found : before.fsm.state ≡ CallState.human_detected
    pub world : t.world ≡ (bridge host now before).world
    pub machine : t.fsm ≡ (bridge host now before).fsm
    pub over : t.finished ≡ true

  pub emit-IsQuiet :
      (b : Body) (now : ℕ) (s : Session Sample W) → IsQuiet s → IsQuiet (emit host b now s)
  unfolding emit
  emit-IsQuiet b now s h = emit_quiet s.finished _ s.world h

  pub emit_state_change-IsQuiet :
      (c : CallState) (now : ℕ) (s : Session Sample W)
      → IsQuiet s
      → IsQuiet (emit_state_change host c now s)
  unfolding emit_state_change
  emit_state_change-IsQuiet c now s h =
      if_elim IsQuiet (Fsm.state_eq s.fsm.state c) (λ _. h) (λ _. emit-IsQuiet _ now s h)

  pub emit_state_change-fsm :
      (c : CallState) (now : ℕ) (s : Session Sample W)
      → (emit_state_change host c now s).fsm ≡ s.fsm
  unfolding emit_state_change emit
  emit_state_change-fsm c now s = ground arith

  pub fail-IsQuiet :
      (r : String) (now : ℕ) (s : Session Sample W) → IsQuiet s → IsQuiet (fail host r now s)
  unfolding fail emit
  fail-IsQuiet r now s h =
      fail_quiet s.finished r (emit host (Body.call_failed r) now s).world (emit-IsQuiet _ now s h)

  start_menu-IsQuiet :
      (now : ℕ) (s : Session Sample W) → IsQuiet s → IsQuiet (start_menu host now s)
  unfolding start_menu emit
  start_menu-IsQuiet now s h =
      submit_quiet s.finished _ (emit host (Body.tier2_woken menu) now s).world
        (emit-IsQuiet _ now s h)

  start_probe-IsQuiet :
      (now : ℕ) (s : Session Sample W) → IsQuiet s → IsQuiet (start_probe host now s)
  unfolding start_probe emit
  start_probe-IsQuiet now s h =
      submit_quiet s.finished _ (emit host (Body.tier2_woken probe) now s).world
        (emit-IsQuiet _ now s h)

  dispatch-IsQuiet :
      (a : Action) (now : ℕ) (s : Session Sample W)
      → a ≢ Action.bridge
      → IsQuiet s
      → IsQuiet (dispatch host a now s)
  unfolding dispatch
  dispatch-IsQuiet Action.nothing now s ne h = h
  dispatch-IsQuiet Action.wake_tier2_menu now s ne h = h
  dispatch-IsQuiet Action.wake_tier2_probe now s ne h =
      if_elim IsQuiet (is_some s.tier2_kind) (λ _. h) (λ _. start_probe-IsQuiet now s h)
  dispatch-IsQuiet Action.bridge now s ne h = absurd (ne refl)
  dispatch-IsQuiet Action.fail now s ne h = fail-IsQuiet "non_connect" now s h

  pub observe_frame-IsQuiet :
      (now : ℕ) (s : Session Sample W) → IsQuiet s → IsQuiet (observe_frame host now s)
  unfolding observe_frame
  observe_frame-IsQuiet now s h =
      dispatch-IsQuiet _ now _ (observe_no_bridge _ _ now _)
        (emit_state_change-IsQuiet _ now _ (emit-IsQuiet _ now s h))

  pub wake_due_menu-IsQuiet :
      (now : ℕ) (s : Session Sample W) → IsQuiet s → IsQuiet (wake_due_menu host now s)
  unfolding wake_due_menu
  wake_due_menu-IsQuiet now s h =
      let t : Session Sample W = record s { menu_wake_due = none } in
      if_elim IsQuiet (is_due s.menu_wake_due now)
        (λ _.
          if_elim IsQuiet (is_ivr_menu t.fsm.state && not (is_some t.tier2_kind))
            (λ _. start_menu-IsQuiet now t h) (λ _. h))
        (λ _. h)

  press-IsQuiet :
      (d : String) (now : ℕ) (s : Session Sample W) → IsQuiet s → IsQuiet (press host d now s)
  unfolding press
  press-IsQuiet d now s h =
      if_elim IsQuiet (str_eq d "") (λ _. h)
        (λ _.
          emit-IsQuiet (dtmf_sent d) now (record s { world = (host.dtmf_sender d s.world).1 })
            (dtmf_quiet s.finished d s.world h))

  pub apply_digits-IsQuiet :
      (d : Option String) (now : ℕ) (s : Session Sample W)
      → IsQuiet s
      → IsQuiet (apply_digits host d now s)
  unfolding apply_digits
  apply_digits-IsQuiet none now s h = h
  apply_digits-IsQuiet (some d) now s h = press-IsQuiet d now s h

  pub on_error-IsQuiet :
      (e : Error) (k : Kind) (now : ℕ) (s : Session Sample W)
      → IsQuiet s
      → IsQuiet (on_error host e k now s)
  unfolding on_error
  on_error-IsQuiet Error.not_implemented k now s h = fail-IsQuiet _ now s h
  on_error-IsQuiet Error.circuit_open k now s h = fail-IsQuiet _ now s h
  on_error-IsQuiet _ menu now s h = h
  on_error-IsQuiet _ probe now s h = fail-IsQuiet _ now s h

  after_on_bridge-finished :
      (o : Handoff) (now : ℕ) (s : Session Sample W)
      → (after_on_bridge host o now s).finished ≡ true
  unfolding after_on_bridge finish_bridge fail
  after_on_bridge-finished underway now s = refl
  after_on_bridge-finished (unavailable r) now s = refl
  after_on_bridge-finished broken now s = refl

  pub bridge-finished : (now : ℕ) (s : Session Sample W) → (bridge host now s).finished ≡ true
  unfolding bridge
  bridge-finished now s =
      let t : Session Sample W = emit host Body.human_detected now s in
      after_on_bridge-finished (host.on_bridge t.world).0 now
        (record t { world = (host.on_bridge t.world).1 })
