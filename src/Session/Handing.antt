-- ===== src/Session/Handing.antt =====
-- What a tick of session.py that calls `on_bridge` was given, over the loop of the windows.
use dial_pass.Prelude.{
  ℕ, zero, suc, ◌+◌, ◌*◌, ◌≡◌, ◌⊎◌, ◌∙◌, refl, ap, inl, inr, String, Bool, true, Option, none, some,
  List, length, leb, ltb, if_elim, arith,
}
use dial_pass.Fsm
use dial_pass.Fsm.{
  Action, CallState, CallStateMachine, is_ivr_menu, observe, note_menu_action, note_menu_abstained,
}
use dial_pass.Fsm.Handoff.{probe_result_cases}
use dial_pass.Breaker.{Outcome, value, raised}
use dial_pass.Buffer.{write}
use dial_pass.Tier2.{ProbeOutcome, Answer, decision, verdict}
use dial_pass.Telemetry.Events.{Kind, menu, probe, probe_result}
use dial_pass.Session.{
  Session, Host, emit, emit_state_change, dispatch, apply_menu, apply_probe, on_result, on_poll,
  poll_kind, poll_tier2, wake_due_menu, observe_frame, run_tick, interval, tick_loop, skip_ahead,
  feed_audio, abort,
}
use dial_pass.Session.Quiet.{
  QuietLaws, emit_state_change-IsQuiet, observe_frame-IsQuiet, wake_due_menu-IsQuiet,
  emit_state_change-fsm, apply_digits-IsQuiet, on_error-IsQuiet, bridge-finished, emit-IsQuiet,
  fail-IsQuiet, IsHanded, IsQuiet,
}

module _ {Sample W : Type 0} (host : Host Sample W) (laws : QuietLaws host) where
  open laws use {Quiet, Confirmed, poll_quiet, confirm}

  probe_result_found :
      (is_human : Bool) (now : ℕ) (m : CallStateMachine)
      → m.state ≡ CallState.evaluating_speech
      → is_human ≡ true
      → (Fsm.probe_result is_human now m).0.state ≡ CallState.human_detected
  unfolding Fsm.probe_result Fsm.enter
  probe_result_found is_human now m e h = ground arith

  apply_probe-cases :
      (o : ProbeOutcome) (now : ℕ) (s : Session Sample W)
      → IsQuiet host laws s
      → (o.is_human ≡ true → Confirmed)
      → IsQuiet host laws (apply_probe host o now s) ⊎ IsHanded host laws (apply_probe host o now s)
  unfolding apply_probe dispatch
  apply_probe-cases o now s h c =
      let t : Session Sample W = emit host (probe_result o.is_human) now s in
      let r : CallStateMachine × Action = Fsm.probe_result o.is_human now t.fsm in
      let u : Session Sample W = record t { fsm = r.0 } in
      let v : Session Sample W = emit_state_change host t.fsm.state now u in
      let quiet : IsQuiet host laws v =
        emit_state_change-IsQuiet host laws _ now u (emit-IsQuiet host laws _ now s h) in
      elim (probe_result_cases o.is_human now t.fsm) [
        | inl e ↦ inl (rw e quiet)
        | inr (e, awaited, human) ↦ inr (
            rw e (record {
              now = now;
              before = v;
              quiet = quiet;
              confirmed = c human;
              found =
                  ap CallStateMachine.state (emit_state_change-fsm host laws t.fsm.state now u)
                  ∙ probe_result_found o.is_human now t.fsm awaited human;
              world = refl;
              machine = refl;
              over = bridge-finished host laws now v;
            }))
      ]

  on_result-cases :
      (r : Outcome Answer) (k : Kind) (now : ℕ) (s : Session Sample W)
      → IsQuiet host laws s
      → ((o : ProbeOutcome) → r ≡ value (verdict o) → o.is_human ≡ true → Confirmed)
      → IsQuiet host laws (on_result host r k now s) ⊎ IsHanded host laws (on_result host r k now s)
  unfolding on_result apply_menu
  on_result-cases (raised e) k now s h c = inl (on_error-IsQuiet host laws e k now s h)
  on_result-cases (value (decision d)) menu now s h c =
      inl (apply_digits-IsQuiet host laws d.digits now s h)
  on_result-cases (value (verdict o)) probe now s h c = apply_probe-cases o now s h (c o refl)
  on_result-cases (value (decision d)) probe now s h c = inl h
  on_result-cases (value (verdict o)) menu now s h c = inl h

  on_poll-cases :
      (r : Option (Outcome Answer)) (k : Kind) (now : ℕ) (s : Session Sample W)
      → IsQuiet host laws s
      → ((o : ProbeOutcome) → r ≡ some (value (verdict o)) → o.is_human ≡ true → Confirmed)
      → IsQuiet host laws (on_poll host r k now s) ⊎ IsHanded host laws (on_poll host r k now s)
  unfolding on_poll
  on_poll-cases none k now s h c = inl h
  on_poll-cases (some r) k now s h c =
      on_result-cases r k now (record s { tier2_kind = none }) h (λ o e. c o (ap some e))

  poll_kind-cases :
      (k : Option Kind) (now : ℕ) (s : Session Sample W)
      → IsQuiet host laws s
      → IsQuiet host laws (poll_kind host k now s) ⊎ IsHanded host laws (poll_kind host k now s)
  unfolding poll_kind
  poll_kind-cases none now s h = inl h
  poll_kind-cases (some k) now s h =
      on_poll-cases (host.poll s.world).0 k now (record s { world = (host.poll s.world).1 })
        (poll_quiet s.finished s.world h) (λ o e. confirm s.finished s.world o h e)

  -- Up to a tick that calls `on_bridge` and ends the call, the world stays quiet.
  pub run_tick-cases :
      (now : ℕ) (s : Session Sample W)
      → IsQuiet host laws s
      → IsQuiet host laws (run_tick host now s) ⊎ IsHanded host laws (run_tick host now s)
  unfolding run_tick poll_tier2
  run_tick-cases now s h =
      let t : Session Sample W = wake_due_menu host now (observe_frame host now s) in
      poll_kind-cases t.tier2_kind now t
        (wake_due_menu-IsQuiet host laws now _ (observe_frame-IsQuiet host laws now s h))

  abbrev pub IsQuietOrHanded : Session Sample W → Type 0
  IsQuietOrHanded s = IsQuiet host laws s ⊎ IsHanded host laws s

  tick_loop-cases :
      (fuel : ℕ) (s : Session Sample W)
      → IsQuiet host laws s
      → IsQuietOrHanded (tick_loop host fuel s)
  unfolding tick_loop
  tick_loop-cases zero s h = inl h
  tick_loop-cases (suc fuel) s h =
      let t : Session Sample W = run_tick host s.next_classify_at s in
      let u : Session Sample W = record t {
        next_classify_at = t.next_classify_at + interval host s;
      } in
      if_elim IsQuietOrHanded (leb s.next_classify_at s.samples_seen)
        (λ _. elim (run_tick-cases s.next_classify_at s h) [
          | inl quiet ↦
              if_elim IsQuietOrHanded u.finished (λ _. inl quiet)
                (λ _. tick_loop-cases fuel u quiet)
          | inr handed ↦
              if_elim IsQuietOrHanded u.finished
                (λ _. inr (record {
                  now = handed.now;
                  before = handed.before;
                  quiet = handed.quiet;
                  confirmed = handed.confirmed;
                  found = handed.found;
                  world = handed.world;
                  machine = handed.machine;
                  over = handed.over;
                }))
                (λ live. cc (live, handed.over))
        ])
        (λ _. inl h)

  -- Audio that is fed to a session on a quiet world leaves it quiet, or `on_bridge` was called on a
  -- quiet world for a human who was confirmed, which ended the call.
  pub feed_audio-cases :
      (pcm : List Sample) (s : Session Sample W)
      → IsQuiet host laws s
      → IsQuietOrHanded (feed_audio host pcm s)
  unfolding feed_audio skip_ahead
  feed_audio-cases pcm s h =
      let a : Session Sample W = record s {
        buffer = write pcm s.buffer;
        samples_seen = s.samples_seen + length pcm;
      } in
      if_elim IsQuietOrHanded s.finished (λ _. inl h)
        (λ _. tick_loop-cases 4 _ (
          if_elim (IsQuiet host laws)
            (ltb (a.next_classify_at + 3 * interval host a) a.samples_seen) (λ _. h) (λ _. h)))

  pub abort-IsQuiet :
      (r : String) (s : Session Sample W) → IsQuiet host laws s → IsQuiet host laws (abort host r s)
  unfolding abort
  abort-IsQuiet r s h =
      if_elim (IsQuiet host laws) s.finished (λ _. h)
        (λ _. fail-IsQuiet host laws r s.samples_seen s h)
