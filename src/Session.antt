-- ===== src/Session.antt =====
-- src/dialpass/agent/session.py: one live call. Times are in units of 1/8000 s, so `audio_seconds`
-- is the number of samples seen. What the session calls through an object that it was given (the
-- classifier, the sink, the executor, the hooks) is a `Host` over the rest of the world, which the
-- session carries along; a hook may change all of it.
pub mod Clock
pub mod Slot
pub mod Slotted
pub mod Log
pub mod Outcomes
pub mod Errors
pub mod Live
pub mod Endings
pub mod Frames
pub mod Windows
pub mod Quiet
pub mod Handing
mod Examples
use dial_pass.Prelude.{
  ℕ, zero, suc, ◌+◌, ◌-◌, ◌*◌, String, Bool, true, false, not, ◌&&◌, Option, none, some, List, [],
  ◌∷◌, length, ltb, leb, is_some, str_eq, if◌then◌else◌,
}
use dial_pass.Labels.{Label}
use dial_pass.Fsm
use dial_pass.Fsm.{
  Action, CallState, CallStateMachine, FsmConfig, is_ivr_menu, new_machine, observe,
  note_menu_action, note_menu_abstained, bridged, completed, state_eq,
}
use dial_pass.Breaker.{Error, Outcome, value, raised}
use dial_pass.Buffer.{RollingBuffer, new_buffer, write, tail, snapshot}
use dial_pass.Tier2.{MenuDecision, ProbeOutcome, Answer, decision, verdict, Job}
use dial_pass.Tier2
use dial_pass.Telemetry.Events.{
  Kind, menu, probe, Body, Event, frame_classified, state_changed, tier2_woken, dtmf_sent,
  probe_result, human_detected, bridge_started, call_completed, call_failed,
}

-- `Frame` and `Classification` of classifier.py.
pub record Frame (Sample : Type 0) : Type 0 where
  pub pcm : List Sample
  pub sample_rate : ℕ
  pub t_start : ℕ

pub record Classification : Type 0 where
  pub label : Label
  pub confidence : ℕ

-- The settings that a session reads.
pub record Settings : Type 0 where
  pub classifier_interval_ms : ℕ
  pub buffer_seconds : ℕ
  pub classify_window_ms : ℕ
  pub menu_collect_s : ℕ

abbrev pub sample_rate : ℕ
sample_rate = 8000

-- How `on_bridge` ends: it returns, raises `HandoffUnavailable`, or raises anything else.
pub data Handoff : Type 0 where
  underway : Handoff
  unavailable : String → Handoff
  broken : Handoff

pub record Host (Sample W : Type 0) : Type 0 where
  pub classify : Frame Sample → Classification
  pub emit : Event → W → W
  -- `true` where the sender raised
  pub dtmf_sender : String → W → Bool × W
  pub on_bridge : W → Handoff × W
  -- what the hook raises is caught and logged
  pub on_fail : String → W → W
  pub submit : Job Sample → W → W
  pub poll : W → Option (Outcome Answer) × W
  pub close : W → W

pub record Session (Sample W : Type 0) : Type 0 where
  pub call_id : String
  pub settings : Settings
  pub goal : Option String
  pub tier2_kind : Option Kind
  pub fsm : CallStateMachine
  pub buffer : RollingBuffer Sample
  pub samples_seen : ℕ
  pub next_classify_at : ℕ
  pub finished : Bool
  pub menu_wake_due : Option ℕ
  pub world : W

abbrev pub is_menu : Kind → Bool
is_menu menu = true
is_menu probe = false

abbrev pub is_probe : Kind → Bool
is_probe menu = false
is_probe probe = true

-- A due time that has come.
abbrev pub is_due : Option ℕ → ℕ → Bool
is_due none now = false
is_due (some t) now = leb t now

module _ {Sample W : Type 0} (host : Host Sample W) where
  -- `AgentSession.__init__`
  unfoldable pub new_session : String → Settings → FsmConfig → Option String → W → Session Sample W
  unfolding new_machine new_buffer
  new_session call_id settings cfg goal w = record {
    call_id = call_id;
    settings = settings;
    goal = goal;
    tier2_kind = none;
    fsm = new_machine cfg;
    buffer = new_buffer settings.buffer_seconds sample_rate;
    samples_seen = 0;
    next_classify_at = 0;
    finished = false;
    menu_wake_due = none;
    world = w;
  }

  unfoldable pub emit : Body → ℕ → Session Sample W → Session Sample W
  emit body t s = record s {
    world = host.emit (record { call_id = s.call_id; t = t; body = body }) s.world;
  }

  -- `_emit_state_change`
  unfoldable pub emit_state_change : CallState → ℕ → Session Sample W → Session Sample W
  emit_state_change before now s =
      if state_eq s.fsm.state before then s else emit (state_changed before s.fsm.state) now s

  -- `_fail`
  unfoldable pub fail : String → ℕ → Session Sample W → Session Sample W
  fail reason now s =
      let t = record (emit (call_failed reason) now s) { finished = true } in
      record t { world = host.on_fail reason t.world }

  -- The end of `_bridge`, after `on_bridge` has returned.
  unfoldable pub finish_bridge : ℕ → Session Sample W → Session Sample W
  finish_bridge now s =
      let a = emit_state_change s.fsm.state now (record s { fsm = bridged s.fsm }) in
      let b = emit bridge_started now a in
      let c = emit_state_change b.fsm.state now (record b { fsm = completed b.fsm }) in
      record (emit (call_completed "human_bridged") now c) { finished = true }

  unfoldable pub after_on_bridge : Handoff → ℕ → Session Sample W → Session Sample W
  after_on_bridge underway now s = finish_bridge now s
  after_on_bridge (unavailable reason) now s = fail reason now s
  after_on_bridge broken now s = fail "handoff_error" now s

  -- `_bridge`
  unfoldable pub bridge : ℕ → Session Sample W → Session Sample W
  bridge now s =
      let t = emit human_detected now s in
      let (handoff, w) = host.on_bridge t.world in
      after_on_bridge handoff now (record t { world = w })

  -- `_start_menu`
  unfoldable pub start_menu : ℕ → Session Sample W → Session Sample W
  start_menu now s =
      let t = record (emit (tier2_woken menu) now s) { tier2_kind = some menu } in
      record t {
        world = host.submit (Job.choose_menu_digit (snapshot t.buffer) sample_rate t.goal) t.world;
      }

  -- `_start_probe`
  unfoldable pub start_probe : ℕ → Session Sample W → Session Sample W
  start_probe now s =
      let t = record (emit (tier2_woken probe) now s) { tier2_kind = some probe } in
      record t { world = host.submit (Job.probe (snapshot t.buffer) sample_rate) t.world }

  -- `_dispatch`
  unfoldable pub dispatch : Action → ℕ → Session Sample W → Session Sample W
  dispatch Action.nothing now s = s
  dispatch Action.wake_tier2_menu now s = record s {
    menu_wake_due = some (now + s.settings.menu_collect_s);
  }
  dispatch Action.wake_tier2_probe now s = if is_some s.tier2_kind then s else start_probe now s
  dispatch Action.bridge now s = bridge now s
  dispatch Action.fail now s = fail "non_connect" now s

  unfoldable pub press : String → ℕ → Session Sample W → Session Sample W
  press digits now s =
      if str_eq digits ""
      then record s { fsm = note_menu_abstained s.fsm }
      else let t = record s { world = (host.dtmf_sender digits s.world).1 } in
        let u = emit (dtmf_sent digits) now t in record u { fsm = note_menu_action now u.fsm }

  unfoldable pub apply_digits : Option String → ℕ → Session Sample W → Session Sample W
  apply_digits none now s = record s { fsm = note_menu_abstained s.fsm }
  apply_digits (some digits) now s = press digits now s

  -- `_apply_menu`
  unfoldable pub apply_menu : MenuDecision → ℕ → Session Sample W → Session Sample W
  unfolding apply_digits
  apply_menu d now s = apply_digits d.digits now s

  -- `_apply_probe`
  unfoldable pub apply_probe : ProbeOutcome → ℕ → Session Sample W → Session Sample W
  apply_probe outcome now s =
      let t = emit (probe_result outcome.is_human) now s in
      let (m, follow_up) = Fsm.probe_result outcome.is_human now t.fsm in
      dispatch follow_up now (emit_state_change t.fsm.state now (record t { fsm = m }))

  -- The errors of `_poll_tier2`.
  unfoldable pub on_error : Error → Kind → ℕ → Session Sample W → Session Sample W
  on_error Error.not_implemented kind now s = fail "tier2_not_implemented" now s
  on_error Error.circuit_open kind now s = fail "tier2_unavailable" now s
  on_error Error.tier2_unavailable kind now s =
      if is_probe kind then fail "tier2_unavailable" now s else s
  on_error _ kind now s = if is_probe kind then fail "tier2_error" now s else s

  -- What `_poll_tier2` does with a result. A value of the other kind, which no executor returns,
  -- is dropped here and raises `AttributeError` in the source.
  unfoldable pub on_result : Outcome Answer → Kind → ℕ → Session Sample W → Session Sample W
  on_result (raised e) kind now s = on_error e kind now s
  on_result (value (decision d)) menu now s = apply_menu d now s
  on_result (value (verdict o)) probe now s = apply_probe o now s
  on_result (value (decision d)) probe now s = s
  on_result (value (verdict o)) menu now s = s

  unfoldable pub on_poll : Option (Outcome Answer) → Kind → ℕ → Session Sample W → Session Sample W
  on_poll none kind now s = s
  on_poll (some outcome) kind now s = on_result outcome kind now (record s { tier2_kind = none })

  unfoldable pub poll_kind : Option Kind → ℕ → Session Sample W → Session Sample W
  poll_kind none now s = s
  poll_kind (some kind) now s =
      let (result, w) = host.poll s.world in on_poll result kind now (record s { world = w })

  -- `_poll_tier2`
  unfoldable pub poll_tier2 : ℕ → Session Sample W → Session Sample W
  unfolding poll_kind on_poll
  poll_tier2 now s = poll_kind s.tier2_kind now s

  -- The deferred menu wake of `_run_tick`.
  unfoldable pub wake_due_menu : ℕ → Session Sample W → Session Sample W
  wake_due_menu now s =
      if is_due s.menu_wake_due now
      then (let t = record s { menu_wake_due = none } in
          if is_ivr_menu t.fsm.state && not (is_some t.tier2_kind) then start_menu now t else t)
      else s

  -- `_run_tick` up to the deferred wake: the frame is classified, observed and acted on.
  unfoldable pub observe_frame : ℕ → Session Sample W → Session Sample W
  observe_frame now s =
      let c = host.classify (record {
        pcm = tail s.settings.classify_window_ms s.buffer;
        sample_rate = sample_rate;
        t_start = now;
      }) in
      let t = emit (frame_classified c.label c.confidence) now s in
      let (m, action) = observe c.label c.confidence now t.fsm in
      dispatch action now (emit_state_change t.fsm.state now (record t { fsm = m }))

  -- `_run_tick`
  unfoldable pub run_tick : ℕ → Session Sample W → Session Sample W
  run_tick now s = poll_tier2 now (wake_due_menu now (observe_frame now s))

  -- `audio_seconds`
  abbrev pub audio_seconds : Session Sample W → ℕ
  audio_seconds s = s.samples_seen

  -- Seconds of `classifier_interval_ms`, in samples.
  abbrev pub interval : Session Sample W → ℕ
  interval s = s.settings.classifier_interval_ms * 8

  -- The `while` of `feed_audio`, on fuel.
  unfoldable pub tick_loop : ℕ → Session Sample W → Session Sample W
  tick_loop zero s = s
  tick_loop (suc fuel) s =
      let t = run_tick s.next_classify_at s in
      let u = record t { next_classify_at = t.next_classify_at + interval s } in
      let rest = (if u.finished then u else tick_loop fuel u) in
      if leb s.next_classify_at s.samples_seen then rest else s

  -- The windows that `feed_audio` skips when it fell behind.
  unfoldable pub skip_ahead : Session Sample W → Session Sample W
  skip_ahead s =
      if ltb (s.next_classify_at + 3 * interval s) s.samples_seen
      then record s { next_classify_at = s.samples_seen - interval s }
      else s

  -- `feed_audio`; no more than four windows are due after the skip.
  unfoldable pub feed_audio : List Sample → Session Sample W → Session Sample W
  feed_audio pcm s =
      if s.finished
      then s
      else tick_loop 4 (
          skip_ahead
            (record s { buffer = write pcm s.buffer; samples_seen = s.samples_seen + length pcm }))

  -- `abort`
  unfoldable pub abort : String → Session Sample W → Session Sample W
  abort reason s = if s.finished then s else fail reason (audio_seconds s) s

  -- `close`
  unfoldable pub close : Session Sample W → Session Sample W
  close s = record s { world = host.close s.world }
