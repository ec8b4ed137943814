-- ===== src/Session/Log.antt =====
-- What the operations of session.py add to its telemetry, the events that it sends to the sink.
use dial_pass.Prelude.{ℕ, ◌+◌, ◌≡◌, ◌≢◌, ◌⊎◌, refl, String, true, List, [], ◌∷◌, inl, inr, arith}
use dial_pass.Fsm.{Action, CallState, bridged, completed}
use dial_pass.Tier2.{Job}
use dial_pass.Telemetry.Events.{
  Body, Event, state_changed, human_detected, bridge_started, call_completed, call_failed,
}
use dial_pass.Session.{
  Session, Host, Handoff, underway, unavailable, broken, emit, emit_state_change, fail,
  finish_bridge, after_on_bridge, bridge, start_menu, start_probe, dispatch,
}

-- How many events of a log end the call well, and how many end it badly.
abbrev completion : Body → ℕ
completion (call_completed o) = 1
completion _ = 0

abbrev failure : Body → ℕ
failure (call_failed r) = 1
failure _ = 0

abbrev pub completions : List Event → ℕ
completions [] = 0
completions (e ∷ log) = completion e.body + completions log

abbrev pub failures : List Event → ℕ
failures [] = 0
failures (e ∷ log) = failure e.body + failures log

-- A contract of the world behind the host: it keeps a log of the events sent, latest first, and only
-- the sink writes to it.
pub record LogLaws {Sample W : Type 0} (host : Host Sample W) : Type 0 where
  pub log : W → List Event
  pub log_emit : (e : Event) (w : W) → log (host.emit e w) ≡ e ∷ log w
  pub log_dtmf : (d : String) (w : W) → log (host.dtmf_sender d w).1 ≡ log w
  pub log_bridge : (w : W) → log (host.on_bridge w).1 ≡ log w
  pub log_fail : (r : String) (w : W) → log (host.on_fail r w) ≡ log w
  pub log_submit : (j : Job Sample) (w : W) → log (host.submit j w) ≡ log w
  pub log_poll : (w : W) → log (host.poll w).1 ≡ log w

module _ {Sample W : Type 0} (host : Host Sample W) (laws : LogLaws host) where
  open laws use {log, log_emit, log_dtmf, log_bridge, log_fail, log_submit, log_poll}

  abbrev pub won : Session Sample W → ℕ
  won s = completions (log s.world)

  abbrev pub lost : Session Sample W → ℕ
  lost s = failures (log s.world)

  -- What an operation adds to the two counts.
  pub record Adds (c f : ℕ) (s t : Session Sample W) : Type 0 where
    pub wins : won t ≡ c + won s
    pub losses : lost t ≡ f + lost s

  pub emit-Adds :
      (b : Body) (now : ℕ) (s : Session Sample W)
      → Adds (completion b) (failure b) s (emit host b now s)
  unfolding emit
  emit-Adds b now s =
      let e : Event = record { call_id = s.call_id; t = now; body = b } in
      record { wins = rw log_emit; losses = rw log_emit }

  pub emit_state_change-Adds :
      (c : CallState) (now : ℕ) (s : Session Sample W) → Adds 0 0 s (emit_state_change host c now s)
  unfolding emit_state_change
  emit_state_change-Adds c now s = ground (arith, emit-Adds (state_changed c s.fsm.state) now s)

  pub emit-keeps :
      (b : Body) (now : ℕ) (s : Session Sample W)
      → let t = emit host b now s in (t.finished ≡ s.finished) × (t.fsm ≡ s.fsm)
  unfolding emit
  emit-keeps b now s = (refl, refl)

  -- The call has failed.
  pub record IsLost (s t : Session Sample W) : Type 0 where
    pub counted : Adds 0 1 s t
    pub over : t.finished ≡ true
    pub machine : t.fsm ≡ s.fsm

  pub fail-IsLost : (r : String) (now : ℕ) (s : Session Sample W) → IsLost s (fail host r now s)
  unfolding fail emit
  fail-IsLost r now s = record {
    counted = record { wins = rw log_fail (rw log_emit); losses = rw log_fail (rw log_emit) };
    over = refl;
    machine = refl;
  }

  -- The call has been bridged.
  pub record IsWon (s t : Session Sample W) : Type 0 where
    pub counted : Adds 1 0 s t
    pub over : t.finished ≡ true

  -- Nothing has been decided.
  pub record IsSame (s t : Session Sample W) : Type 0 where
    pub counted : Adds 0 0 s t
    pub over : t.finished ≡ s.finished
    pub machine : t.fsm ≡ s.fsm

  pub emit_state_change-IsSame :
      (c : CallState) (now : ℕ) (s : Session Sample W) → IsSame s (emit_state_change host c now s)
  unfolding emit_state_change
  emit_state_change-IsSame c now s = ground (
    arith,
    emit-Adds (state_changed c s.fsm.state) now s,
    emit-keeps (state_changed c s.fsm.state) now s,
  )

  pub finish_bridge-IsWon : (now : ℕ) (s : Session Sample W) → IsWon s (finish_bridge host now s)
  unfolding finish_bridge
  finish_bridge-IsWon now s =
      let a : Session Sample W =
        emit_state_change host s.fsm.state now (record s { fsm = bridged s.fsm }) in
      let b : Session Sample W = emit host bridge_started now a in
      let c : Session Sample W =
        emit_state_change host b.fsm.state now (record b { fsm = completed b.fsm }) in
      ground (
        arith,
        emit_state_change-Adds s.fsm.state now (record s { fsm = bridged s.fsm }),
        emit-Adds bridge_started now a,
        emit_state_change-Adds b.fsm.state now (record b { fsm = completed b.fsm }),
        emit-Adds (call_completed "human_bridged") now c,
      )

  -- The call has ended, one way or the other.
  pub record IsDecided (s t : Session Sample W) : Type 0 where
    pub over : t.finished ≡ true
    pub counted : Adds 1 0 s t ⊎ Adds 0 1 s t

  pub after_on_bridge-IsDecided :
      (o : Handoff) (now : ℕ) (s : Session Sample W) → IsDecided s (after_on_bridge host o now s)
  unfolding after_on_bridge
  after_on_bridge-IsDecided underway now s =
      let h : IsWon s (finish_bridge host now s) = finish_bridge-IsWon now s in
      record { over = h.over; counted = inl h.counted }
  after_on_bridge-IsDecided (unavailable r) now s =
      let h : IsLost s (fail host r now s) = fail-IsLost r now s in
      record { over = h.over; counted = inr h.counted }
  after_on_bridge-IsDecided broken now s =
      let h : IsLost s (fail host "handoff_error" now s) = fail-IsLost "handoff_error" now s in
      record { over = h.over; counted = inr h.counted }

  pub bridge-IsDecided : (now : ℕ) (s : Session Sample W) → IsDecided s (bridge host now s)
  unfolding bridge
  bridge-IsDecided now s =
      let t : Session Sample W = emit host human_detected now s in
      let u : Session Sample W = record t { world = (host.on_bridge t.world).1 } in
      let w : won u ≡ won t = rw log_bridge in
      let l : lost u ≡ lost t = rw log_bridge in
      ground (
        arith,
        emit-Adds human_detected now s,
        w,
        l,
        after_on_bridge-IsDecided (host.on_bridge t.world).0 now u,
      )

  pub start_menu-IsSame : (now : ℕ) (s : Session Sample W) → IsSame s (start_menu host now s)
  unfolding start_menu emit
  start_menu-IsSame now s = record {
    counted = record { wins = rw log_submit (rw log_emit); losses = rw log_submit (rw log_emit) };
    over = refl;
    machine = refl;
  }

  pub start_probe-IsSame : (now : ℕ) (s : Session Sample W) → IsSame s (start_probe host now s)
  unfolding start_probe emit
  start_probe-IsSame now s = record {
    counted = record { wins = rw log_submit (rw log_emit); losses = rw log_submit (rw log_emit) };
    over = refl;
    machine = refl;
  }

  -- What `dispatch` does for an action of Tier 1.
  pub dispatch-decides :
      (a : Action) (now : ℕ) (s : Session Sample W)
      → a ≢ Action.bridge
      → let t = dispatch host a now s in IsSame s t ⊎ ((a ≡ Action.fail) × IsLost s t)
  unfolding dispatch
  dispatch-decides Action.nothing now s ne = ground arith
  dispatch-decides Action.wake_tier2_menu now s ne = ground arith
  dispatch-decides Action.wake_tier2_probe now s ne = ground (arith, start_probe-IsSame now s)
  dispatch-decides Action.bridge now s ne = absurd (ne refl)
  dispatch-decides Action.fail now s ne = inr (refl, fail-IsLost "non_connect" now s)
