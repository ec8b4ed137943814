-- ===== src/Call/Ahead.antt =====
-- What the wires of a call keep of the handoff, and of the verdicts that are ahead.
use dial_pass.Prelude.{
  ◌≡◌, refl, ap, ◌∙◌, String, true, false, ◌||◌, Option, none, some, List, [], ◌∷◌, arith,
}
use dial_pass.Breaker.{Outcome, value}
use dial_pass.Tier2.{Answer, ProbeOutcome, verdict}
use dial_pass.Executor.{
  Future, running, finished, ThreadedExecutor, threaded_submit, threaded_poll, complete,
}
use dial_pass.Bridge
use dial_pass.Bridge.{
  Bytes, CallBridge, bind_agent, bind_user, begin_probe, end_probe, finish_handoff, press_dtmf,
  play_to_agent, drain_agent, drain_user, on_user_audio, new_bridge,
}
use dial_pass.Bridge.Hub.{relayed-shut}
use dial_pass.Call.{Wires, poll_wires, finish_task, on_session_fail, next_end, later, send_user}
use dial_pass.Call.Phases.{
  first_fallback, has_human, human_ahead, future_human, IsSpeaking, IsTalking, IsTorn, Keeps,
}

-- What a poll hands over was ahead, and what is ahead after it was ahead before.
poll-ahead :
    (f : Option (Future Answer)) (l : List (Option (Outcome Answer))) (e : ThreadedExecutor Answer)
    → e.future ≡ f
    → let (r, k) = threaded_poll (complete (next_end l) e) in
      (future_human k.future || has_human (later l) ≡ true → future_human f || has_human l ≡ true)
      × ((o : ProbeOutcome)
          → r ≡ some (value (verdict o))
          → o.is_human ≡ true
          → future_human f || has_human l ≡ true)
unfolding threaded_poll complete
poll-ahead none l e h = ground arith
poll-ahead (some running) [] e h = ground arith
poll-ahead (some running) (none ∷ l) e h = ground arith
poll-ahead (some running) (some r ∷ l) e h = ground arith
poll-ahead (some (finished r)) l e h = ground arith

pub poll_wires-ahead :
    (w : Wires)
    → (human_ahead (poll_wires w).1 ≡ true → human_ahead w ≡ true)
      × ((o : ProbeOutcome)
          → (poll_wires w).0 ≡ some (value (verdict o))
          → o.is_human ≡ true
          → human_ahead w ≡ true)
unfolding poll_wires
poll_wires-ahead w = poll-ahead w.executor.future w.schedule w.executor refl

pub submit-ahead :
    (w : Wires)
    → human_ahead (record w { executor = threaded_submit w.executor }) ≡ true
    → human_ahead w ≡ true
unfolding threaded_submit
submit-ahead w h = ground arith

pub same_bridge :
    (w v : Wires)
    → v.bridge ≡ w.bridge
    → v.texts ≡ w.texts
    → v.to_user ≡ w.to_user
    → (w.fallbacks ≡ first_fallback w.teardowns → v.fallbacks ≡ first_fallback v.teardowns)
    → (IsTorn w → IsTorn v)
    → Keeps w v
same_bridge w v b t u f n = record {
  started = ap CallBridge.handoff_started b;
  relay = ap CallBridge.relay_open b;
  task = ap CallBridge.handoff_task b;
  texts = t;
  unheard = λ h. (ap CallBridge.outbound_user b ∙ h.unqueued, u ∙ h.unsent, f h.fallen);
  torn = n;
}

-- Polling leaves the bridge alone, as pressing keys leaves the handoff.
pub press_dtmf-Keeps :
    (d : String) (w : Wires) → Keeps w (record w { bridge = press_dtmf d w.clock w.bridge })
unfolding press_dtmf
press_dtmf-Keeps d w = ground arith

pub on_agent_audio-Keeps :
    (ulaw : Bytes) (w : Wires) → Keeps w (record w { bridge = Bridge.on_agent_audio ulaw w.bridge })
unfolding Bridge.on_agent_audio
on_agent_audio-Keeps ulaw w = record {
  started = refl;
  relay = refl;
  task = refl;
  texts = refl;
  unheard = λ h. (
    relayed-shut w.bridge.relay_open w.bridge.user_stream_sid ulaw w.bridge.outbound_user h.shut
        ∙ h.unqueued,
    h.unsent,
    h.fallen,
  );
  torn = λ t. t;
}

pub send_user-Keeps : (w : Wires) → Keeps w (send_user w)
unfolding drain_user
send_user-Keeps w = record {
  started = refl;
  relay = refl;
  task = refl;
  texts = refl;
  unheard = λ h. (refl, rw (h.unsent, h.unqueued) refl, h.fallen);
  torn = λ t. t;
}

pub finish_task_idle : (w : Wires) → w.bridge.handoff_task ≡ false → finish_task w ≡ w
unfolding finish_task
finish_task_idle w e = ground arith

pub finish_task_due : (w : Wires) → IsSpeaking w → IsTalking (finish_task w)
unfolding finish_task finish_handoff
finish_task_due w h = ground (arith, h.silent)

pub close-Keeps : (w : Wires) → Keeps w (record w { bridge = Bridge.close w.bridge })
unfolding Bridge.close
close-Keeps w = ground arith

pub on_session_fail-IsTorn : (r : String) (w : Wires) → IsTorn (on_session_fail r w)
unfolding on_session_fail
on_session_fail-IsTorn r w = omega arith
