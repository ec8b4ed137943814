-- ===== src/Session/Frames.antt =====
-- The `FrameClassified` events of session.py: which operation sends them, and when.
use dial_pass.Prelude.{ℕ, ◌≡◌, refl, ap, ◌∙◌, String, List, [], ◌∷◌, none, arith}
use dial_pass.Fsm.{Action, CallState, CallStateMachine, bridged, completed, observe}
use dial_pass.Fsm
use dial_pass.Breaker.{Outcome, value, raised}
use dial_pass.Tier2.{Answer, decision, verdict}
use dial_pass.Telemetry.Events.{
  Kind, menu, probe, Body, Event, frame_classified, state_changed, dtmf_sent, probe_result,
  human_detected, bridge_started, call_completed,
}
use dial_pass.Session.{
  Session, Host, Handoff, underway, unavailable, broken, emit, emit_state_change, fail,
  finish_bridge, after_on_bridge, bridge, start_menu, start_probe, dispatch, press, apply_menu,
  apply_probe, on_error, on_result, poll_kind, poll_tier2, wake_due_menu, observe_frame, run_tick,
}
use dial_pass.Session.Log.{LogLaws}

-- The times of the `FrameClassified` of a log, latest first.
abbrev pub add_time : Body → ℕ → List ℕ → List ℕ
add_time (frame_classified l c) t ts = t ∷ ts
add_time _ t ts = ts

abbrev pub frame_times : List Event → List ℕ
frame_times [] = []
frame_times (e ∷ log) = add_time e.body e.t (frame_times log)

module _ {Sample W : Type 0} (host : Host Sample W) (laws : LogLaws host) where
  open laws use {log, log_emit, log_dtmf, log_bridge, log_fail, log_submit, log_poll}

  abbrev pub times : Session Sample W → List ℕ
  times s = frame_times (log s.world)

  emit-times :
      (b : Body) (now : ℕ) (s : Session Sample W)
      → times (emit host b now s) ≡ add_time b now (times s)
  unfolding emit
  emit-times b now s = rw log_emit refl

  emit_state_change-times :
      (c : CallState) (now : ℕ) (s : Session Sample W)
      → times (emit_state_change host c now s) ≡ times s
  unfolding emit_state_change
  emit_state_change-times c now s = ground (arith, emit-times (state_changed c s.fsm.state) now s)

  fail-times : (r : String) (now : ℕ) (s : Session Sample W) → times (fail host r now s) ≡ times s
  unfolding fail emit
  fail-times r now s = rw log_fail (rw log_emit refl)

  finish_bridge-times :
      (now : ℕ) (s : Session Sample W) → times (finish_bridge host now s) ≡ times s
  unfolding finish_bridge
  finish_bridge-times now s =
      let a : Session Sample W =
        emit_state_change host s.fsm.state now (record s { fsm = bridged s.fsm }) in
      let b : Session Sample W = emit host bridge_started now a in
      let c : Session Sample W =
        emit_state_change host b.fsm.state now (record b { fsm = completed b.fsm }) in
      emit-times (call_completed "human_bridged") now c
      ∙ (emit_state_change-times b.fsm.state now (record b { fsm = completed b.fsm })
          ∙ (emit-times bridge_started now a
              ∙ emit_state_change-times s.fsm.state now (record s { fsm = bridged s.fsm })))

  after_on_bridge-times :
      (o : Handoff) (now : ℕ) (s : Session Sample W)
      → times (after_on_bridge host o now s) ≡ times s
  unfolding after_on_bridge
  after_on_bridge-times underway now s = finish_bridge-times now s
  after_on_bridge-times (unavailable r) now s = fail-times r now s
  after_on_bridge-times broken now s = fail-times "handoff_error" now s

  bridge-times : (now : ℕ) (s : Session Sample W) → times (bridge host now s) ≡ times s
  unfolding bridge
  bridge-times now s =
      let t : Session Sample W = emit host human_detected now s in
      after_on_bridge-times (host.on_bridge t.world).0 now
        (record t { world = (host.on_bridge t.world).1 })
      ∙ (ap frame_times (log_bridge t.world) ∙ emit-times human_detected now s)

  start_menu-times : (now : ℕ) (s : Session Sample W) → times (start_menu host now s) ≡ times s
  unfolding start_menu emit
  start_menu-times now s = rw log_submit (rw log_emit refl)

  start_probe-times : (now : ℕ) (s : Session Sample W) → times (start_probe host now s) ≡ times s
  unfolding start_probe emit
  start_probe-times now s = rw log_submit (rw log_emit refl)

  dispatch-times :
      (a : Action) (now : ℕ) (s : Session Sample W) → times (dispatch host a now s) ≡ times s
  unfolding dispatch
  dispatch-times Action.nothing now s = refl
  dispatch-times Action.wake_tier2_menu now s = refl
  dispatch-times Action.wake_tier2_probe now s = ground (arith, start_probe-times now s)
  dispatch-times Action.bridge now s = bridge-times now s
  dispatch-times Action.fail now s = fail-times "non_connect" now s

  press-times : (d : String) (now : ℕ) (s : Session Sample W) → times (press host d now s) ≡ times s
  unfolding press
  press-times d now s =
      let t : Session Sample W = record s { world = (host.dtmf_sender d s.world).1 } in
      let l : times t ≡ times s = ap frame_times (log_dtmf d s.world) in
      ground (arith, emit-times (dtmf_sent d) now t, l)

  on_result-times :
      (r : Outcome Answer) (k : Kind) (now : ℕ) (s : Session Sample W)
      → times (on_result host r k now s) ≡ times s
  unfolding on_result on_error apply_menu apply_probe
  on_result-times (raised e) k now s = ground (
    arith,
    fail-times "tier2_not_implemented" now s,
    fail-times "tier2_unavailable" now s,
    fail-times "tier2_error" now s,
  )
  on_result-times (value (decision d)) menu now s = grind (arith, press-times)
  on_result-times (value (verdict o)) probe now s =
      let t : Session Sample W = emit host (probe_result o.is_human) now s in
      let r : CallStateMachine × Action = Fsm.probe_result o.is_human now t.fsm in
      let u : Session Sample W = record t { fsm = r.0 } in
      dispatch-times r.1 now (emit_state_change host t.fsm.state now u)
      ∙ (emit_state_change-times t.fsm.state now u ∙ emit-times (probe_result o.is_human) now s)
  on_result-times (value (decision d)) probe now s = refl
  on_result-times (value (verdict o)) menu now s = refl

  poll_tier2-times : (now : ℕ) (s : Session Sample W) → times (poll_tier2 host now s) ≡ times s
  unfolding poll_tier2 poll_kind
  poll_tier2-times now s =
      let l : frame_times (log (host.poll s.world).1) ≡ times s =
        ap frame_times (log_poll s.world) in
      grind (arith, on_result-times, l)

  wake_due_menu-times :
      (now : ℕ) (s : Session Sample W) → times (wake_due_menu host now s) ≡ times s
  unfolding wake_due_menu
  wake_due_menu-times now s =
      ground (arith, start_menu-times now (record s { menu_wake_due = none }))

  observe_frame-times :
      (now : ℕ) (s : Session Sample W) → times (observe_frame host now s) ≡ now ∷ times s
  unfolding observe_frame
  observe_frame-times now s = grind (arith, dispatch-times, emit_state_change-times, emit-times)

  pub run_tick-times :
      (now : ℕ) (s : Session Sample W) → times (run_tick host now s) ≡ now ∷ times s
  unfolding run_tick
  run_tick-times now s =
      let t : Session Sample W = observe_frame host now s in
      poll_tier2-times now (wake_due_menu host now t)
      ∙ (wake_due_menu-times now t ∙ observe_frame-times now s)
