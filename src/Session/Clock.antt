-- ===== src/Session/Clock.antt =====
-- The audio clock of session.py: the windows that `feed_audio` classifies.
use dial_pass.Prelude.{
  ℕ, zero, suc, ◌+◌, ◌-◌, ◌*◌, ◌≤◌, ◌<◌, ◌≡◌, String, false, List, length, arith,
}
use dial_pass.Fsm.{Action, CallState}
use dial_pass.Breaker.{Outcome, value, raised}
use dial_pass.Buffer.{write}
use dial_pass.Tier2.{Answer, decision, verdict}
use dial_pass.Telemetry.Events.{Kind, menu, probe, Body}
use dial_pass.Session.{
  Session, Host, emit, emit_state_change, fail, finish_bridge, after_on_bridge, bridge, start_menu,
  start_probe, dispatch, press, apply_menu, apply_probe, on_error, on_result, poll_kind, poll_tier2,
  wake_due_menu, observe_frame, run_tick, interval, tick_loop, skip_ahead, feed_audio,
}

-- The fields that only `feed_audio` moves.
pub record SameClock {Sample W : Type 0} (s t : Session Sample W) : Type 0 where
  pub seen : t.samples_seen ≡ s.samples_seen
  pub next : t.next_classify_at ≡ s.next_classify_at
  pub settings : t.settings ≡ s.settings
  pub samples : t.buffer ≡ s.buffer

module _ {Sample W : Type 0} (host : Host Sample W) where
  emit-SameClock : (b : Body) (now : ℕ) (s : Session Sample W) → SameClock s (emit host b now s)
  unfolding emit
  emit-SameClock b now s = ground arith

  emit_state_change-SameClock :
      (c : CallState) (now : ℕ) (s : Session Sample W)
      → SameClock s (emit_state_change host c now s)
  unfolding emit_state_change emit
  emit_state_change-SameClock c now s = ground arith

  fail-SameClock : (r : String) (now : ℕ) (s : Session Sample W) → SameClock s (fail host r now s)
  unfolding fail emit
  fail-SameClock r now s = ground arith

  bridge-SameClock : (now : ℕ) (s : Session Sample W) → SameClock s (bridge host now s)
  unfolding bridge after_on_bridge finish_bridge fail emit emit_state_change
  bridge-SameClock now s = ground arith

  dispatch-SameClock :
      (a : Action) (now : ℕ) (s : Session Sample W) → SameClock s (dispatch host a now s)
  unfolding dispatch start_probe emit
  dispatch-SameClock Action.bridge now s = bridge-SameClock now s
  dispatch-SameClock Action.fail now s = fail-SameClock "non_connect" now s
  dispatch-SameClock _ now s = ground arith

  on_result-SameClock :
      (r : Outcome Answer) (k : Kind) (now : ℕ) (s : Session Sample W)
      → SameClock s (on_result host r k now s)
  unfolding on_result on_error apply_menu press apply_probe
  on_result-SameClock (raised e) k now s = ground (
    arith,
    fail-SameClock "tier2_not_implemented" now s,
    fail-SameClock "tier2_unavailable" now s,
    fail-SameClock "tier2_error" now s,
  )
  on_result-SameClock (value (decision d)) menu now s = unfold emit in ground arith
  on_result-SameClock (value (verdict o)) probe now s =
      grind (arith, dispatch-SameClock, emit_state_change-SameClock, emit-SameClock)
  on_result-SameClock (value (decision d)) probe now s = ground arith
  on_result-SameClock (value (verdict o)) menu now s = ground arith

  poll_tier2-SameClock : (now : ℕ) (s : Session Sample W) → SameClock s (poll_tier2 host now s)
  unfolding poll_tier2 poll_kind
  poll_tier2-SameClock now s = grind (arith, on_result-SameClock)

  wake_due_menu-SameClock :
      (now : ℕ) (s : Session Sample W) → SameClock s (wake_due_menu host now s)
  unfolding wake_due_menu start_menu emit
  wake_due_menu-SameClock now s = ground arith

  observe_frame-SameClock :
      (now : ℕ) (s : Session Sample W) → SameClock s (observe_frame host now s)
  unfolding observe_frame
  observe_frame-SameClock now s =
      grind (arith, dispatch-SameClock, emit_state_change-SameClock, emit-SameClock)

  pub run_tick-SameClock : (now : ℕ) (s : Session Sample W) → SameClock s (run_tick host now s)
  unfolding run_tick
  run_tick-SameClock now s =
      grind (arith, poll_tier2-SameClock, wake_due_menu-SameClock, observe_frame-SameClock)

  -- On enough fuel the loop ends by its own test, and the clock has gone one window past the audio
  -- at most.
  tick_loop-caught_up :
      (fuel i : ℕ) (s : Session Sample W)
      → interval host s ≡ i
      → 0 < i
      → s.samples_seen < s.next_classify_at + fuel * i
      → s.next_classify_at ≤ s.samples_seen + i
      → let t = tick_loop host fuel s in
        (t.samples_seen ≡ s.samples_seen)
        × (t.settings ≡ s.settings)
        × (t.next_classify_at ≤ t.samples_seen + i)
        × (t.finished ≡ false → t.samples_seen < t.next_classify_at)
  unfolding tick_loop
  tick_loop-caught_up zero i s e pos enough near = ground arith
  tick_loop-caught_up (suc fuel) i s e pos enough near =
      let t : Session Sample W = run_tick host s.next_classify_at s in
      let u : Session Sample W = record t {
        next_classify_at = t.next_classify_at + interval host s;
      } in
      ground (arith, run_tick-SameClock s.next_classify_at s, tick_loop-caught_up fuel i u)

  pub feed_audio-clock :
      (pcm : List Sample) (s : Session Sample W)
      → 0 < s.settings.classifier_interval_ms
      → s.finished ≡ false
      → s.next_classify_at ≤ s.samples_seen + interval host s
      → let t = feed_audio host pcm s in
        (t.samples_seen ≡ s.samples_seen + length pcm)
        × (t.next_classify_at ≤ t.samples_seen + interval host s)
        × (t.finished ≡ false → t.samples_seen < t.next_classify_at)
  unfolding feed_audio skip_ahead
  feed_audio-clock pcm s pos live near =
      let i : ℕ = interval host s in
      let a : Session Sample W = record s {
        buffer = write pcm s.buffer;
        samples_seen = s.samples_seen + length pcm;
      } in
      ground (
        arith,
        tick_loop-caught_up 4 i a,
        tick_loop-caught_up 4 i (record a { next_classify_at = a.samples_seen - i }),
      )
