-- ===== src/Session/Outcomes.antt =====
-- How a call of session.py ends, as its telemetry tells: the events that it sends to the sink.
use dial_pass.Prelude.{
  ℕ, zero, suc, ◌+◌, ◌*◌, ◌≤◌, ◌≡◌, ◌⊎◌, String, true, false, Option, none, some, List, length, ltb,
  Option-cases, if_elim, inl, inr, leb, arith,
}
use dial_pass.Fsm
use dial_pass.Fsm.{
  is_ivr_menu, Action, CallState, CallStateMachine, bridged, completed, note_menu_action,
  note_menu_abstained, observe, enter, streak_for, handlers, live_states,
}
use dial_pass.Fsm.Handoff.{observe_no_bridge, observe-fail-state, probe_result_cases}
use dial_pass.Breaker.{Error, Outcome, value, raised}
use dial_pass.Buffer.{write, tail}
use dial_pass.Tier2.{ProbeOutcome, Answer, decision, verdict}
use dial_pass.Telemetry.Events.{Kind, menu, probe, dtmf_sent, probe_result, frame_classified}
use dial_pass.Session.Log.{
  LogLaws, completions, failures, emit_state_change-IsSame, start_menu-IsSame, bridge-IsDecided,
  dispatch-decides, fail-IsLost, emit-keeps, emit-Adds, IsSame, Adds, lost, won,
}
use dial_pass.Session.{
  Session, Host, emit, emit_state_change, dispatch, press, apply_menu, apply_probe, on_error,
  on_result, apply_digits, on_poll, poll_kind, poll_tier2, wake_due_menu, observe_frame, run_tick,
  interval, tick_loop, skip_ahead, feed_audio, abort, sample_rate, Classification,
}

module _ {Sample W : Type 0} (host : Host Sample W) (laws : LogLaws host) where
  open laws use {log, log_emit, log_dtmf, log_bridge, log_fail, log_submit, log_poll}

  -- After the frame a live call is live, or it has failed for want of a connection.
  observe_frame-decides :
      (now : ℕ) (s : Session Sample W)
      → s.finished ≡ false
      → let t = observe_frame host now s in
        (Adds host laws 0 0 s t × (t.finished ≡ false))
        ⊎ (Adds host laws 0 1 s t × (t.finished ≡ true) × (t.fsm.state ≡ CallState.failed))
  unfolding observe_frame
  observe_frame-decides now s live =
      let c : Classification = host.classify (record {
        pcm = tail s.settings.classify_window_ms s.buffer;
        sample_rate = sample_rate;
        t_start = now;
      }) in
      let t : Session Sample W = emit host (frame_classified c.label c.confidence) now s in
      let r : CallStateMachine × Action = observe c.label c.confidence now t.fsm in
      let u : Session Sample W = record t { fsm = r.0 } in
      let v : Session Sample W = emit_state_change host t.fsm.state now u in
      ground (
        arith,
        emit-keeps host laws (frame_classified c.label c.confidence) now s,
        emit-Adds host laws (frame_classified c.label c.confidence) now s,
        emit_state_change-IsSame host laws t.fsm.state now u,
        observe-fail-state c.label c.confidence now t.fsm,
        dispatch-decides host laws r.1 now v (observe_no_bridge c.label c.confidence now t.fsm),
      )

  wake_due_menu-IsSame :
      (now : ℕ) (s : Session Sample W) → IsSame host laws s (wake_due_menu host now s)
  unfolding wake_due_menu
  wake_due_menu-IsSame now s =
      ground (arith, start_menu-IsSame host laws now (record s { menu_wake_due = none }))

  press-IsUndecided :
      (d : String) (now : ℕ) (s : Session Sample W)
      → let t = press host d now s in Adds host laws 0 0 s t × (t.finished ≡ s.finished)
  unfolding press
  press-IsUndecided d now s =
      let t : Session Sample W = record s { world = (host.dtmf_sender d s.world).1 } in
      let w : won host laws t ≡ won host laws s = rw log_dtmf in
      let l : lost host laws t ≡ lost host laws s = rw log_dtmf in
      ground (
        arith,
        w,
        l,
        emit-keeps host laws (dtmf_sent d) now t,
        emit-Adds host laws (dtmf_sent d) now t,
      )

  -- What the result of a Tier 2 call decides. Only a probe that was awaited can end the call well.
  record IsRuled (s t : Session Sample W) : Type 0 where
    ruled :
        (Adds host laws 0 0 s t × (t.finished ≡ s.finished))
        ⊎ ((t.finished ≡ true)
            × (Adds host laws 0 1 s t
                ⊎ (Adds host laws 1 0 s t × (s.fsm.state ≡ CallState.evaluating_speech))))

  apply_probe-IsRuled :
      (o : ProbeOutcome) (now : ℕ) (s : Session Sample W) → IsRuled s (apply_probe host o now s)
  unfolding apply_probe dispatch
  apply_probe-IsRuled o now s =
      let t : Session Sample W = emit host (probe_result o.is_human) now s in
      let r : CallStateMachine × Action = Fsm.probe_result o.is_human now t.fsm in
      let v : Session Sample W = emit_state_change host t.fsm.state now (record t { fsm = r.0 }) in
      ground (
        arith,
        emit-Adds host laws (probe_result o.is_human) now s,
        emit-keeps host laws (probe_result o.is_human) now s,
        emit_state_change-IsSame host laws t.fsm.state now (record t { fsm = r.0 }),
        probe_result_cases o.is_human now t.fsm,
        bridge-IsDecided host laws now v,
      )

  on_error-IsRuled :
      (e : Error) (k : Kind) (now : ℕ) (s : Session Sample W) → IsRuled s (on_error host e k now s)
  unfolding on_error
  on_error-IsRuled e k now s = ground (
    arith,
    fail-IsLost host laws "tier2_not_implemented" now s,
    fail-IsLost host laws "tier2_unavailable" now s,
    fail-IsLost host laws "tier2_error" now s,
  )

  on_result-IsRuled :
      (r : Outcome Answer) (k : Kind) (now : ℕ) (s : Session Sample W)
      → IsRuled s (on_result host r k now s)
  unfolding on_result apply_menu apply_digits
  on_result-IsRuled (raised e) k now s = on_error-IsRuled e k now s
  on_result-IsRuled (value (decision d)) menu now s = elim (Option-cases d.digits) [
    | inl e ↦ ground arith
    | inr (digits, e) ↦ ground (arith, press-IsUndecided digits now s)
  ]
  on_result-IsRuled (value (verdict o)) probe now s = apply_probe-IsRuled o now s
  on_result-IsRuled (value (decision d)) probe now s = ground arith
  on_result-IsRuled (value (verdict o)) menu now s = ground arith

  on_poll-IsRuled :
      (r : Option (Outcome Answer)) (k : Kind) (now : ℕ) (s : Session Sample W)
      → IsRuled s (on_poll host r k now s)
  unfolding on_poll
  on_poll-IsRuled none k now s = ground arith
  on_poll-IsRuled (some r) k now s =
      ground (arith, on_result-IsRuled r k now (record s { tier2_kind = none }))

  poll_kind-IsRuled :
      (k : Option Kind) (now : ℕ) (s : Session Sample W) → IsRuled s (poll_kind host k now s)
  unfolding poll_kind
  poll_kind-IsRuled none now s = ground arith
  poll_kind-IsRuled (some k) now s =
      let t : Session Sample W = record s { world = (host.poll s.world).1 } in
      let w : won host laws t ≡ won host laws s = rw log_poll in
      let l : lost host laws t ≡ lost host laws s = rw log_poll in
      ground (arith, w, l, on_poll-IsRuled (host.poll s.world).0 k now t)

  -- What the log says of a call: nothing while it lives; once it is over, that it was bridged once
  -- and did not fail, or that it failed, once or twice, and was not bridged.
  pub record IsSettled (s : Session Sample W) : Type 0 where
    pub live : s.finished ≡ false → (completions (log s.world) ≡ 0) × (failures (log s.world) ≡ 0)
    pub over :
        s.finished ≡ true
        → ((completions (log s.world) ≡ 1) × (failures (log s.world) ≡ 0))
          ⊎ ((completions (log s.world) ≡ 0)
              × (1 ≤ failures (log s.world))
              × (failures (log s.world) ≤ 2))

  run_tick-IsSettled :
      (now : ℕ) (s : Session Sample W)
      → s.finished ≡ false
      → IsSettled s
      → IsSettled (run_tick host now s)
  unfolding run_tick poll_tier2
  run_tick-IsSettled now s live h =
      let a : Session Sample W = observe_frame host now s in
      let b : Session Sample W = wake_due_menu host now a in
      ground (
        arith,
        observe_frame-decides now s live,
        wake_due_menu-IsSame now a,
        poll_kind-IsRuled b.tier2_kind now b,
      )

  tick_loop-IsSettled :
      (fuel : ℕ) (s : Session Sample W)
      → s.finished ≡ false
      → IsSettled s
      → IsSettled (tick_loop host fuel s)
  unfolding tick_loop
  tick_loop-IsSettled zero s live h = h
  tick_loop-IsSettled (suc fuel) s live h =
      let t : Session Sample W = run_tick host s.next_classify_at s in
      let ht : IsSettled t = run_tick-IsSettled s.next_classify_at s live h in
      let u : Session Sample W = record t {
        next_classify_at = t.next_classify_at + interval host s;
      } in
      let hu : IsSettled u = record { live = ht.live; over = ht.over } in
      if_elim IsSettled (leb s.next_classify_at s.samples_seen)
        (λ _. if_elim IsSettled u.finished (λ _. hu) (λ e. tick_loop-IsSettled fuel u e hu))
        (λ _. h)

  -- Audio that is fed to a settled session leaves it settled.
  pub feed_audio-IsSettled :
      (pcm : List Sample) (s : Session Sample W) → IsSettled s → IsSettled (feed_audio host pcm s)
  unfolding feed_audio skip_ahead
  feed_audio-IsSettled pcm s h =
      let a : Session Sample W = record s {
        buffer = write pcm s.buffer;
        samples_seen = s.samples_seen + length pcm;
      } in
      if_elim IsSettled s.finished (λ _. h)
        (λ live.
          if_elim (λ x. IsSettled (tick_loop host 4 x))
            (ltb (a.next_classify_at + 3 * interval host a) a.samples_seen)
            (λ _. tick_loop-IsSettled 4 _ live (record { live = h.live; over = h.over }))
            (λ _. tick_loop-IsSettled 4 a live (record { live = h.live; over = h.over })))

  pub abort-IsSettled :
      (r : String) (s : Session Sample W) → IsSettled s → IsSettled (abort host r s)
  unfolding abort
  abort-IsSettled r s h = ground (arith, fail-IsLost host laws r s.samples_seen s)
