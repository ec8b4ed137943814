-- ===== src/Session/Endings.antt =====
-- The end of a call of session.py, over every sequence of audio and aborts.
use dial_pass.Prelude.{
  ℕ, ◌+◌, ◌≤◌, ◌≡◌, ◌⊎◌, refl, String, true, false, Option, none, some, List, [], ◌∷◌, ◌∙◌, if_elim,
  ap, arith,
}
use dial_pass.Fsm.{Action, CallState, CallStateMachine, FsmConfig, observe}
use dial_pass.Breaker.{Error, raised}
use dial_pass.Buffer.{tail}
use dial_pass.Telemetry.Events.{probe, Body, state_changed, frame_classified}
use dial_pass.Session.{
  Session, Host, Settings, emit, emit_state_change, fail, dispatch, on_error, on_result, on_poll,
  poll_kind, poll_tier2, wake_due_menu, observe_frame, run_tick, feed_audio, abort, new_session,
  sample_rate, Classification,
}
use dial_pass.Session.Log.{LogLaws, completions, failures}
use dial_pass.Session.Outcomes.{IsSettled, feed_audio-IsSettled, abort-IsSettled}

-- What the transport does with a session: it feeds audio, or ends the call for a reason.
pub data Input (Sample : Type 0) : Type 0 where
  audio : List Sample → Input Sample
  hang_up : String → Input Sample

module _ {Sample W : Type 0} (host : Host Sample W) where
  unfoldable pub step : Input Sample → Session Sample W → Session Sample W
  step (audio pcm) s = feed_audio host pcm s
  step (hang_up reason) s = abort host reason s

  unfoldable pub run : List (Input Sample) → Session Sample W → Session Sample W
  unfolding step
  run [] s = s
  run (i ∷ is) s = run is (step i s)

  step_finished : (i : Input Sample) (s : Session Sample W) → s.finished ≡ true → step i s ≡ s
  unfolding step feed_audio abort
  step_finished (audio pcm) s e = if_elim (λ t. t ≡ s) s.finished (λ _. refl) (λ f. cc (e, f))
  step_finished (hang_up r) s e = if_elim (λ t. t ≡ s) s.finished (λ _. refl) (λ f. cc (e, f))

  -- A finished session is left as it is by all audio and every abort.
  pub run_finished :
      (is : List (Input Sample)) (s : Session Sample W) → s.finished ≡ true → run is s ≡ s
  unfolding run
  run_finished [] s e = refl
  run_finished (i ∷ is) s e = ap (run is) (step_finished i s e) ∙ run_finished is s e

module _ {Sample W : Type 0} (host : Host Sample W) (laws : LogLaws host) where
  open laws use {log, log_emit, log_fail, log_poll}

  run-IsSettled :
      (is : List (Input Sample)) (s : Session Sample W)
      → IsSettled host laws s
      → IsSettled host laws (run host is s)
  unfolding run step
  run-IsSettled [] s h = h
  run-IsSettled (audio pcm ∷ is) s h =
      run-IsSettled is (feed_audio host pcm s) (feed_audio-IsSettled host laws pcm s h)
  run-IsSettled (hang_up r ∷ is) s h =
      run-IsSettled is (abort host r s) (abort-IsSettled host laws r s h)

  -- From a new session on an empty log, after any audio and aborts: while the call is live the log
  -- has no `CallCompleted` and no `CallFailed`; once it is over the log has one `CallCompleted` and
  -- no `CallFailed`, or no `CallCompleted` and one or two `CallFailed`.
  pub call_ends_one_way :
      (id : String) (settings : Settings) (cfg : FsmConfig) (goal : Option String) (w : W)
      → (is : List (Input Sample)) → log w ≡ []
      → let s = run host is (new_session host id settings cfg goal w) in
        let won = completions (log s.world) in
        let lost = failures (log s.world) in
        (s.finished ≡ false → (won ≡ 0) × (lost ≡ 0))
        × (s.finished ≡ true → ((won ≡ 1) × (lost ≡ 0)) ⊎ ((won ≡ 0) × (1 ≤ lost) × (lost ≤ 2)))
  unfolding new_session
  call_ends_one_way id settings cfg goal w is empty =
      let h : IsSettled host laws (run host is (new_session host id settings cfg goal w)) =
        run-IsSettled is (new_session host id settings cfg goal w)
          (record { live = λ _. rw empty (refl, refl); over = λ e. cc e }) in
      (h.live, h.over)

  -- What the machine makes of the frame of a tick.
  abbrev pub classified : ℕ → Session Sample W → Classification
  classified now s = host.classify (record {
    pcm = tail s.settings.classify_window_ms s.buffer;
    sample_rate = sample_rate;
    t_start = now;
  })

  abbrev pub observe_of : ℕ → Session Sample W → CallStateMachine × Action
  observe_of now s = let c = classified now s in observe c.label c.confidence now s.fsm

  -- One operation adds failures to the log, and leaves the slot, the due time and the machine alone.
  record Fails (n : ℕ) (s t : Session Sample W) : Type 0 where
    counted : failures (log t.world) ≡ n + failures (log s.world)
    slot : t.tier2_kind ≡ s.tier2_kind
    due : t.menu_wake_due ≡ s.menu_wake_due
    machine : t.fsm ≡ s.fsm

  emit-Fails :
      (b : Body) (now : ℕ) (s : Session Sample W)
      → (failures (record { call_id = s.call_id; t = now; body = b } ∷ []) ≡ 0)
      → Fails 0 s (emit host b now s)
  unfolding emit
  emit-Fails b now s quiet = record {
    counted = rw log_emit (omega (arith, quiet));
    slot = refl;
    due = refl;
    machine = refl;
  }

  emit_state_change-Fails :
      (c : CallState) (now : ℕ) (s : Session Sample W) → Fails 0 s (emit_state_change host c now s)
  unfolding emit_state_change
  emit_state_change-Fails c now s =
      ground (arith, emit-Fails (state_changed c s.fsm.state) now s refl)

  fail-Fails : (r : String) (now : ℕ) (s : Session Sample W) → Fails 1 s (fail host r now s)
  unfolding fail emit
  fail-Fails r now s = record {
    counted = rw log_fail (rw log_emit);
    slot = refl;
    due = refl;
    machine = refl;
  }

  frame_fails :
      (now : ℕ) (s : Session Sample W)
      → (observe_of now s).1 ≡ Action.fail
      → let t = observe_frame host now s in
        (failures (log t.world) ≡ 1 + failures (log s.world))
        × (t.tier2_kind ≡ s.tier2_kind)
        × (t.menu_wake_due ≡ s.menu_wake_due)
  unfolding observe_frame dispatch
  frame_fails now s nc =
      let c : Classification = classified now s in
      let t : Session Sample W = emit host (frame_classified c.label c.confidence) now s in
      let r : CallStateMachine × Action = observe c.label c.confidence now t.fsm in
      let u : Session Sample W = record t { fsm = r.0 } in
      let v : Session Sample W = emit_state_change host t.fsm.state now u in
      ground (
        arith,
        emit-Fails (frame_classified c.label c.confidence) now s refl,
        emit_state_change-Fails t.fsm.state now u,
        fail-Fails "non_connect" now v,
      )

  -- A tick sends two `CallFailed` if its frame makes the machine ask to fail, a probe is outstanding,
  -- no menu wake is pending, and its poll finds that the probe has raised `Tier2Unavailable`.
  pub fails_twice :
      (now : ℕ) (s : Session Sample W)
      → (observe_of now s).1 ≡ Action.fail
      → s.tier2_kind ≡ some probe
      → s.menu_wake_due ≡ none
      → (host.poll (observe_frame host now s).world).0 ≡ some (raised Error.tier2_unavailable)
      → failures (log (run_tick host now s).world) ≡ failures (log s.world) + 2
  unfolding run_tick wake_due_menu poll_tier2 poll_kind on_poll on_result on_error
  fails_twice now s nc slot due down =
      let t : Session Sample W = observe_frame host now s in
      let u : Session Sample W = record t { tier2_kind = none; world = (host.poll t.world).1 } in
      let l : failures (log u.world) ≡ failures (log t.world) = rw log_poll in
      ground (arith, frame_fails now s nc, down, l, fail-Fails "tier2_unavailable" now u)
