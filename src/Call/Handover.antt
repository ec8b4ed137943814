-- ===== src/Call/Handover.antt =====
-- The handoff of a call that bridge.py and session.py make together, over every sequence of events.
use dial_pass.Prelude.{
  ◌+◌, ◌<◌, length, ◌≡◌, ◌⊎◌, refl, inl, inr, String, Bool, true, false, ◌||◌, Option, none, List,
  [], ◌∷◌, if_elim, arith,
}
use dial_pass.Prelude.Bytes.{ℤ}
use dial_pass.Fsm.{CallState, FsmConfig}
use dial_pass.Audio.{ulaw_to_pcm16}
use dial_pass.Breaker.{Outcome}
use dial_pass.Tier2.{Answer}
use dial_pass.Executor.{threaded_close}
use dial_pass.Bridge
use dial_pass.Bridge.{
  Bytes, CallBridge, bind_agent, bind_user, begin_probe, end_probe, finish_handoff, press_dtmf,
  play_to_agent, drain_agent, drain_user, on_user_audio, new_bridge,
}
use dial_pass.Session
use dial_pass.Session.{
  Frame, Classification, Settings, Handoff, underway, unavailable, Session, emit, emit_state_change,
  broken, finish_bridge, fail, after_on_bridge, bridge, feed_audio, abort, new_session,
}
use dial_pass.Session.Handing.{feed_audio-cases, abort-IsQuiet}
use dial_pass.Call.{
  Wires, user_sms, CallEvent, agent_bound, user_bound, agent_frame, user_frame, agent_drained,
  user_drained, user_ended, probe_begun, probe_ended, played, line_spoken, hung_up, closed, waited,
  finish_task, send_agent, send_user, wired, on_wires, on_hub, on_agent_audio, end_user_leg, close,
  step, run, new_call,
}
use dial_pass.Call.Ahead.{
  close-Keeps, same_bridge, on_agent_audio-Keeps, send_user-Keeps, finish_task_idle,
  finish_task_due,
}
use dial_pass.Call.Phases.{has_human, IsSilent}
use dial_pass.Call.Progress.{
  IsHanded-IsAfter, on_wires-IsPhase, on_hub-IsPhase, waiting_laws, IsPhase,
}

module _ (classify : Frame ℤ → Classification) (key : Bool) (found : Bool) where
  feed_audio-IsPhase :
      (pcm : List ℤ) (s : Session ℤ Wires)
      → s.finished ≡ false
      → IsPhase classify key found s
      → IsPhase classify key found (feed_audio (wired classify key) pcm s)
  unfolding waiting_laws
  feed_audio-IsPhase pcm s live (inl h) =
      elim (feed_audio-cases (wired classify key) (waiting_laws classify key found) pcm s h) [
        | inl quiet ↦ inl quiet
        | inr handed ↦ inr (handed.over, IsHanded-IsAfter classify key found _ handed)
      ]
  feed_audio-IsPhase pcm s live (inr (over, h)) = cc (live, over)

  finish_task-IsPhase :
      (s : Session ℤ Wires)
      → IsPhase classify key found s
      → IsPhase classify key found (on_wires finish_task s)
  unfolding on_wires
  finish_task-IsPhase s (inl h) = inl (rw (finish_task_idle s.world h.0.before.no_task) h)
  finish_task-IsPhase s (inr (over, inl (gone, torn))) =
      inr (over, rw (finish_task_idle s.world gone.no_task) (inl (gone, torn)))
  finish_task-IsPhase s (inr (over, inr (f, d, inl speaking))) =
      inr (over, inr (f, d, inr (finish_task_due s.world speaking)))
  finish_task-IsPhase s (inr (over, inr (f, d, inr talking))) =
      inr (over, rw (finish_task_idle s.world talking.no_task) (inr (f, d, inr talking)))

  abort-IsPhase :
      (r : String) (s : Session ℤ Wires)
      → IsPhase classify key found s
      → IsPhase classify key found (abort (wired classify key) r s)
  unfolding waiting_laws abort
  abort-IsPhase r s (inl h) =
      inl (abort-IsQuiet (wired classify key) (waiting_laws classify key found) r s h)
  abort-IsPhase r s (inr (over, after)) =
      if_elim (IsPhase classify key found) s.finished (λ _. inr (over, after))
        (λ live. cc (live, over))

  on_agent_audio-IsPhase :
      (ulaw : Bytes) (s : Session ℤ Wires)
      → IsPhase classify key found s
      → IsPhase classify key found (on_agent_audio classify key ulaw s)
  unfolding on_agent_audio on_hub
  on_agent_audio-IsPhase ulaw s h =
      let t : Session ℤ Wires = on_hub (Bridge.on_agent_audio ulaw) s in
      let k : IsPhase classify key found t =
        on_hub-IsPhase classify key found (Bridge.on_agent_audio ulaw) s (on_agent_audio-Keeps ulaw)
          h in
      if_elim (IsPhase classify key found) t.finished (λ _. k)
        (λ live. feed_audio-IsPhase (ulaw_to_pcm16 ulaw) t live k)

  close-IsPhase :
      (s : Session ℤ Wires)
      → IsPhase classify key found s
      → IsPhase classify key found (close classify key s)
  unfolding close Session.close on_wires threaded_close
  close-IsPhase s h =
      let t : Session ℤ Wires = on_hub Bridge.close s in
      if_elim (IsPhase classify key found) s.world.bridge.closed (λ _. h)
        (λ _.
          on_wires-IsPhase classify key found
            (λ w. record w { executor = threaded_close w.executor }) t
            (same_bridge t.world _ refl refl refl (λ t. t) (λ t. t)) (λ a. a)
            (on_hub-IsPhase classify key found Bridge.close s (λ w. close-Keeps w) h))

  end_user_leg-IsPhase :
      (s : Session ℤ Wires)
      → IsPhase classify key found s
      → IsPhase classify key found (end_user_leg classify key s)
  unfolding end_user_leg on_hub
  end_user_leg-IsPhase s h =
      let t : Session ℤ Wires = on_hub (λ b. record b { user_stream_sid = none }) s in
      let k : IsPhase classify key found t =
        on_hub-IsPhase classify key found (λ b. record b { user_stream_sid = none }) s
          (λ w. ground arith) h in
      if_elim (IsPhase classify key found) (t.world.bridge.relay_open || t.finished) (λ _. k)
        (λ _. abort-IsPhase "user_left" t k)

  step-IsPhase :
      (e : CallEvent) (s : Session ℤ Wires)
      → IsPhase classify key found s
      → IsPhase classify key found (step classify key e s)
  unfolding step on_hub bind_agent bind_user on_user_audio drain_agent begin_probe end_probe
      play_to_agent
  step-IsPhase (agent_bound sid) s h =
      on_hub-IsPhase classify key found (bind_agent sid true) s (λ w. ground arith) h
  step-IsPhase (user_bound sid) s h =
      on_hub-IsPhase classify key found (bind_user sid) s (λ w. ground arith) h
  step-IsPhase (agent_frame ulaw) s h = on_agent_audio-IsPhase ulaw s h
  step-IsPhase (user_frame ulaw) s h =
      on_hub-IsPhase classify key found (on_user_audio ulaw) s (λ w. ground arith) h
  step-IsPhase agent_drained s h =
      on_wires-IsPhase classify key found send_agent s (ground arith) (λ a. a) h
  step-IsPhase user_drained s h =
      on_wires-IsPhase classify key found send_user s (send_user-Keeps s.world) (λ a. a) h
  step-IsPhase user_ended s h = end_user_leg-IsPhase s h
  step-IsPhase probe_begun s h =
      on_hub-IsPhase classify key found begin_probe s (λ w. ground arith) h
  step-IsPhase probe_ended s h = on_hub-IsPhase classify key found end_probe s (λ w. ground arith) h
  step-IsPhase (played pcm) s h =
      on_hub-IsPhase classify key found (play_to_agent pcm) s (λ w. ground arith) h
  step-IsPhase line_spoken s h = finish_task-IsPhase s h
  step-IsPhase (hung_up r) s h = abort-IsPhase r s h
  step-IsPhase closed s h = close-IsPhase s h
  step-IsPhase (waited n) s h =
      on_wires-IsPhase classify key found (λ w. record w { clock = w.clock + n }) s (ground arith)
        (λ a. a) h

  run-IsPhase :
      (es : List CallEvent) (s : Session ℤ Wires)
      → IsPhase classify key found s
      → IsPhase classify key found (run classify key es s)
  unfolding run
  run-IsPhase [] s h = h
  run-IsPhase (e ∷ es) s h = run-IsPhase es (step classify key e s) (step-IsPhase e s h)

  phase_lem :
      (s : Session ℤ Wires)
      → IsPhase classify key found s
      → let b = s.world.bridge in
        (b.relay_open || b.handoff_task ≡ true
          → (found ≡ true) × (s.finished ≡ true) × (s.fsm.state ≡ CallState.done))
        × (b.relay_open ≡ false → IsSilent s.world)
        × (b.relay_open ≡ true → s.world.texts ≡ user_sms ∷ [])
        × (s.finished ≡ true
            → (b.relay_open || b.handoff_task ≡ true) ⊎ (0 < length s.world.teardowns))
  phase_lem s (inl h) = ground (arith, h.0.before, h.0.before.silent, h.1)
  phase_lem s (inr (over, inl (gone, torn))) = ground (arith, gone, gone.silent)
  phase_lem s (inr (over, inr (f, d, inl speaking))) = ground (arith, speaking, speaking.silent)
  phase_lem s (inr (over, inr (f, d, inr talking))) = ground (arith, talking)

-- From the start of a call, whatever reaches its hub, the end of the user's socket included, and
-- however its Tier 2 calls are scheduled to end: the relay is open, or due to be opened, only if
-- one of those ends is the verdict of a human, and the session is over, in DONE. While the relay is
-- shut nothing is sent or queued to the user, and the hub has had them texted nothing but, if the
-- call has failed, the fallback line of its first failure. Once it is open they have been told once
-- that they are connected. A call that is over is not left on a dead line: its relay is open or due
-- to be opened, or it has been asked to be torn down.
pub handover_confirmed :
    (classify : Frame ℤ → Classification) (key : Bool) (group call : String) (settings : Settings)
    → (cfg : FsmConfig) (goal : Option String) (schedule : List (Option (Outcome Answer)))
    → (es : List CallEvent)
    → let s = run classify key es (new_call classify key group call settings cfg goal schedule) in
      let b = s.world.bridge in
      (b.relay_open || b.handoff_task ≡ true
        → (has_human schedule ≡ true) × (s.finished ≡ true) × (s.fsm.state ≡ CallState.done))
      × (b.relay_open ≡ false → IsSilent s.world)
      × (b.relay_open ≡ true → s.world.texts ≡ user_sms ∷ [])
      × (s.finished ≡ true
          → (b.relay_open || b.handoff_task ≡ true) ⊎ (0 < length s.world.teardowns))
unfolding new_call
handover_confirmed classify key group call settings cfg goal schedule es =
    let s = new_call classify key group call settings cfg goal schedule in
    phase_lem classify key (has_human schedule) (run classify key es s) (
      run-IsPhase classify key (has_human schedule) es s (
        inl (
          record {
            before = record {
              silent = record {
                shut = refl;
                untold = refl;
                unqueued = refl;
                unsent = refl;
                fallen = refl;
              };
              unstarted = refl;
              no_task = refl;
            };
            known = λ e. e;
          },
          λ e. cc e,
        )))
