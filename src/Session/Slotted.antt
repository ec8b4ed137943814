-- ===== src/Session/Slotted.antt =====
-- The single slot of Tier 2 in session.py, through the results of Tier 2 and the loop over the windows.
use dial_pass.Prelude.{
  ℕ, zero, suc, ◌+◌, ◌*◌, ◌≡◌, refl, String, Option, none, some, List, length, ltb, if_elim,
  eq_none, not, ◌&&◌, leb, is_some, str_eq, arith,
}
use dial_pass.Fsm
use dial_pass.Fsm.{
  is_ivr_menu, Action, CallState, CallStateMachine, bridged, completed, note_menu_action,
  note_menu_abstained, observe,
}
use dial_pass.Breaker.{Error, Outcome, value, raised}
use dial_pass.Buffer.{write}
use dial_pass.Tier2.{MenuDecision, ProbeOutcome, Answer, decision, verdict}
use dial_pass.Telemetry.Events.{Kind, menu, probe, dtmf_sent, probe_result}
use dial_pass.Session.{
  Session, Host, is_due, emit, press, apply_menu, apply_probe, on_error, on_result, apply_digits,
  on_poll, poll_kind, poll_tier2, wake_due_menu, observe_frame, run_tick, interval, tick_loop,
  skip_ahead, feed_audio,
}
use dial_pass.Session.Slot.{
  SlotLaws, emit_state_change-IsSlotted, start_menu-IsSlotted, dispatch-IsSlotted, fail-IsSlotted,
  emit-IsSlotted, same-IsSlotted, IsSlotted,
}

module _ {Sample W : Type 0} (host : Host Sample W) (laws : SlotLaws host) where
  open laws use {
    Idle, Sound, emit_idle, emit_sound, dtmf_idle, dtmf_sound, bridge_idle, bridge_sound, fail_idle,
    fail_sound, submit_sound, poll_sound, poll_idle,
  }

  press-IsSlotted :
      (d : String) (now : ℕ) (s : Session Sample W)
      → IsSlotted host laws s
      → IsSlotted host laws (press host d now s)
  unfolding press
  press-IsSlotted d now s h =
      if_elim (IsSlotted host laws) (str_eq d "") (λ _. same-IsSlotted host laws s _ refl refl h)
        (λ _.
          let t : Session Sample W = record s { world = (host.dtmf_sender d s.world).1 } in
          let k : IsSlotted host laws t = record {
            sound = dtmf_sound d s.world h.sound;
            free = λ p. dtmf_idle d s.world (h.free p);
          } in
          same-IsSlotted host laws (emit host (dtmf_sent d) now t) _ refl refl
            (emit-IsSlotted host laws _ now t k))

  apply_digits-IsSlotted :
      (d : Option String) (now : ℕ) (s : Session Sample W)
      → IsSlotted host laws s
      → IsSlotted host laws (apply_digits host d now s)
  unfolding apply_digits
  apply_digits-IsSlotted none now s h = same-IsSlotted host laws s _ refl refl h
  apply_digits-IsSlotted (some d) now s h = press-IsSlotted d now s h

  apply_menu-IsSlotted :
      (d : MenuDecision) (now : ℕ) (s : Session Sample W)
      → IsSlotted host laws s
      → IsSlotted host laws (apply_menu host d now s)
  unfolding apply_menu
  apply_menu-IsSlotted d now s h = apply_digits-IsSlotted d.digits now s h

  apply_probe-IsSlotted :
      (o : ProbeOutcome) (now : ℕ) (s : Session Sample W)
      → IsSlotted host laws s
      → IsSlotted host laws (apply_probe host o now s)
  unfolding apply_probe
  apply_probe-IsSlotted o now s h =
      let t : Session Sample W = emit host (probe_result o.is_human) now s in
      let r : CallStateMachine × Action = Fsm.probe_result o.is_human now t.fsm in
      dispatch-IsSlotted host laws r.1 now _ (
        emit_state_change-IsSlotted host laws _ now _ (
          same-IsSlotted host laws t (record t { fsm = r.0 }) refl refl
            (emit-IsSlotted host laws _ now s h)))

  on_error-IsSlotted :
      (e : Error) (k : Kind) (now : ℕ) (s : Session Sample W)
      → IsSlotted host laws s
      → IsSlotted host laws (on_error host e k now s)
  unfolding on_error
  on_error-IsSlotted Error.not_implemented k now s h = fail-IsSlotted host laws _ now s h
  on_error-IsSlotted Error.circuit_open k now s h = fail-IsSlotted host laws _ now s h
  on_error-IsSlotted _ menu now s h = h
  on_error-IsSlotted _ probe now s h = fail-IsSlotted host laws _ now s h

  on_result-IsSlotted :
      (r : Outcome Answer) (k : Kind) (now : ℕ) (s : Session Sample W)
      → IsSlotted host laws s
      → IsSlotted host laws (on_result host r k now s)
  unfolding on_result
  on_result-IsSlotted (raised e) k now s h = on_error-IsSlotted e k now s h
  on_result-IsSlotted (value (decision d)) menu now s h = apply_menu-IsSlotted d now s h
  on_result-IsSlotted (value (verdict o)) probe now s h = apply_probe-IsSlotted o now s h
  on_result-IsSlotted (value (decision d)) probe now s h = h
  on_result-IsSlotted (value (verdict o)) menu now s h = h

  on_poll-IsSlotted :
      (r : Option (Outcome Answer)) (k : Kind) (now : ℕ) (s : Session Sample W)
      → Sound s.world
      → ((o : Outcome Answer) → r ≡ some o → Idle s.world)
      → s.tier2_kind ≡ some k
      → IsSlotted host laws (on_poll host r k now s)
  unfolding on_poll
  on_poll-IsSlotted none k now s sound idle e = record { sound = sound; free = λ p. cc (p, e) }
  on_poll-IsSlotted (some o) k now s sound idle e =
      on_result-IsSlotted o k now (record s { tier2_kind = none })
        (record { sound = sound; free = λ _. idle o refl })

  poll_kind-IsSlotted :
      (k : Option Kind) (now : ℕ) (s : Session Sample W)
      → s.tier2_kind ≡ k
      → IsSlotted host laws s
      → IsSlotted host laws (poll_kind host k now s)
  unfolding poll_kind
  poll_kind-IsSlotted none now s e h = h
  poll_kind-IsSlotted (some k) now s e h =
      on_poll-IsSlotted (host.poll s.world).0 k now (record s { world = (host.poll s.world).1 })
        (poll_sound s.world h.sound) (poll_idle s.world) e

  poll_tier2-IsSlotted :
      (now : ℕ) (s : Session Sample W)
      → IsSlotted host laws s
      → IsSlotted host laws (poll_tier2 host now s)
  unfolding poll_tier2
  poll_tier2-IsSlotted now s h = poll_kind-IsSlotted s.tier2_kind now s refl h

  wake_due_menu-IsSlotted :
      (now : ℕ) (s : Session Sample W)
      → IsSlotted host laws s
      → IsSlotted host laws (wake_due_menu host now s)
  unfolding wake_due_menu
  wake_due_menu-IsSlotted now s h =
      let t : Session Sample W = record s { menu_wake_due = none } in
      let ht : IsSlotted host laws t = same-IsSlotted host laws s t refl refl h in
      if_elim (IsSlotted host laws) (is_due s.menu_wake_due now)
        (λ _.
          if_elim (IsSlotted host laws) (is_ivr_menu t.fsm.state && not (is_some t.tier2_kind))
            (λ e. start_menu-IsSlotted host laws now t (eq_none t.tier2_kind (ground arith)) ht)
            (λ _. ht))
        (λ _. h)

  observe_frame-IsSlotted :
      (now : ℕ) (s : Session Sample W)
      → IsSlotted host laws s
      → IsSlotted host laws (observe_frame host now s)
  unfolding observe_frame
  observe_frame-IsSlotted now s h = dispatch-IsSlotted host laws _ now _ (
      emit_state_change-IsSlotted host laws _ now _
        (same-IsSlotted host laws _ _ refl refl (emit-IsSlotted host laws _ now s h)))

  tick_loop-IsSlotted :
      (fuel : ℕ) (s : Session Sample W)
      → IsSlotted host laws s
      → IsSlotted host laws (tick_loop host fuel s)
  unfolding tick_loop run_tick
  tick_loop-IsSlotted zero s h = h
  tick_loop-IsSlotted (suc fuel) s h =
      let t : Session Sample W = run_tick host s.next_classify_at s in
      let ht : IsSlotted host laws t =
        poll_tier2-IsSlotted _ _ (wake_due_menu-IsSlotted _ _ (observe_frame-IsSlotted _ s h)) in
      let u : Session Sample W = record t {
        next_classify_at = t.next_classify_at + interval host s;
      } in
      let hu : IsSlotted host laws u = same-IsSlotted host laws t u refl refl ht in
      if_elim (IsSlotted host laws) (leb s.next_classify_at s.samples_seen)
        (λ _.
          if_elim (IsSlotted host laws) u.finished (λ _. hu) (λ _. tick_loop-IsSlotted fuel u hu))
        (λ _. h)

  -- On a host that keeps the contract of the slot, by which a submission is sound where no Tier 2
  -- call is outstanding, `feed_audio` keeps the host sound, and leaves no call outstanding where the
  -- session notes none.
  pub feed_audio-IsSlotted :
      (pcm : List Sample) (s : Session Sample W)
      → IsSlotted host laws s
      → IsSlotted host laws (feed_audio host pcm s)
  unfolding feed_audio skip_ahead
  feed_audio-IsSlotted pcm s h =
      let a : Session Sample W = record s {
        buffer = write pcm s.buffer;
        samples_seen = s.samples_seen + length pcm;
      } in
      if_elim (IsSlotted host laws) s.finished (λ _. h)
        (λ _. tick_loop-IsSlotted 4 _ (
          if_elim (IsSlotted host laws)
            (ltb (a.next_classify_at + 3 * interval host a) a.samples_seen)
            (λ _. same-IsSlotted host laws s _ refl refl h)
            (λ _. same-IsSlotted host laws s a refl refl h)))
