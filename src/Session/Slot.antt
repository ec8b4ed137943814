-- ===== src/Session/Slot.antt =====
-- The single slot of Tier 2 in session.py: a job is handed to the executor only when none is
-- outstanding, which the executor relies on.
use dial_pass.Prelude.{ℕ, ◌≡◌, refl, String, none, some, sym, ◌∙◌, if_elim, eq_none, is_some, arith}
use dial_pass.Fsm.{Action, CallState, bridged, completed}
use dial_pass.Breaker.{Outcome}
use dial_pass.Tier2.{Answer, Job}
use dial_pass.Telemetry.Events.{
  menu, probe, Body, Event, tier2_woken, human_detected, bridge_started, call_completed,
}
use dial_pass.Session.{
  Session, Host, Handoff, underway, unavailable, broken, emit, emit_state_change, fail,
  finish_bridge, after_on_bridge, bridge, start_menu, start_probe, dispatch,
}

-- A contract of the world behind the host. `Idle`: no job is outstanding at the executor. `Sound`:
-- it was never given a job while another was. Only a submission breaks `Sound`, and only where the
-- executor is not idle; a poll that hands a result over leaves the executor idle.
pub record SlotLaws {Sample W : Type 0} (host : Host Sample W) : Type 1 where
  pub Idle : W → Type 0
  pub Sound : W → Type 0
  pub emit_idle : (e : Event) (w : W) → Idle w → Idle (host.emit e w)
  pub emit_sound : (e : Event) (w : W) → Sound w → Sound (host.emit e w)
  pub dtmf_idle : (d : String) (w : W) → Idle w → Idle (host.dtmf_sender d w).1
  pub dtmf_sound : (d : String) (w : W) → Sound w → Sound (host.dtmf_sender d w).1
  pub bridge_idle : (w : W) → Idle w → Idle (host.on_bridge w).1
  pub bridge_sound : (w : W) → Sound w → Sound (host.on_bridge w).1
  pub fail_idle : (r : String) (w : W) → Idle w → Idle (host.on_fail r w)
  pub fail_sound : (r : String) (w : W) → Sound w → Sound (host.on_fail r w)
  pub submit_sound : (j : Job Sample) (w : W) → Idle w → Sound w → Sound (host.submit j w)
  pub poll_sound : (w : W) → Sound w → Sound (host.poll w).1
  pub poll_idle : (w : W) (r : Outcome Answer) → (host.poll w).0 ≡ some r → Idle (host.poll w).1

module _ {Sample W : Type 0} (host : Host Sample W) (laws : SlotLaws host) where
  open laws use {
    Idle, Sound, emit_idle, emit_sound, dtmf_idle, dtmf_sound, bridge_idle, bridge_sound, fail_idle,
    fail_sound, submit_sound, poll_sound, poll_idle,
  }

  -- The session takes the executor for busy at least as long as it is.
  pub record IsSlotted (s : Session Sample W) : Type 0 where
    pub sound : Sound s.world
    pub free : s.tier2_kind ≡ none → Idle s.world

  pub emit-IsSlotted :
      (b : Body) (now : ℕ) (s : Session Sample W) → IsSlotted s → IsSlotted (emit host b now s)
  unfolding emit
  emit-IsSlotted b now s h = record {
    sound = emit_sound _ s.world h.sound;
    free = λ e. emit_idle _ s.world (h.free e);
  }

  pub emit_state_change-IsSlotted :
      (c : CallState) (now : ℕ) (s : Session Sample W)
      → IsSlotted s
      → IsSlotted (emit_state_change host c now s)
  unfolding emit_state_change
  emit_state_change-IsSlotted c now s h =
      ground (arith, emit-IsSlotted (Body.state_changed c s.fsm.state) now s h)

  pub fail-IsSlotted :
      (r : String) (now : ℕ) (s : Session Sample W) → IsSlotted s → IsSlotted (fail host r now s)
  unfolding fail
  fail-IsSlotted r now s h =
      let k : IsSlotted (emit host (Body.call_failed r) now s) = emit-IsSlotted _ now s h in
      record { sound = fail_sound r _ k.sound; free = λ e. fail_idle r _ (k.free e) }

  -- What a change of the other fields keeps.
  pub same-IsSlotted :
      (s t : Session Sample W)
      → t.world ≡ s.world
      → t.tier2_kind ≡ s.tier2_kind
      → IsSlotted s
      → IsSlotted t
  same-IsSlotted s t w k h = record { sound = rw w h.sound; free = λ e. rw w (h.free (sym k ∙ e)) }

  finish_bridge-IsSlotted :
      (now : ℕ) (s : Session Sample W) → IsSlotted s → IsSlotted (finish_bridge host now s)
  unfolding finish_bridge
  finish_bridge-IsSlotted now s h =
      let a : Session Sample W =
        emit_state_change host s.fsm.state now (record s { fsm = bridged s.fsm }) in
      let ha : IsSlotted a = emit_state_change-IsSlotted _ now _ (same-IsSlotted s _ refl refl h) in
      let b : Session Sample W = emit host bridge_started now a in
      let hb : IsSlotted b = emit-IsSlotted _ now a ha in
      let hc : IsSlotted
          (emit_state_change host b.fsm.state now (record b { fsm = completed b.fsm })) =
        emit_state_change-IsSlotted _ now _ (same-IsSlotted b _ refl refl hb) in
      same-IsSlotted _ _ refl refl (emit-IsSlotted (call_completed "human_bridged") now _ hc)

  after_on_bridge-IsSlotted :
      (o : Handoff) (now : ℕ) (s : Session Sample W)
      → IsSlotted s
      → IsSlotted (after_on_bridge host o now s)
  unfolding after_on_bridge
  after_on_bridge-IsSlotted underway now s h = finish_bridge-IsSlotted now s h
  after_on_bridge-IsSlotted (unavailable r) now s h = fail-IsSlotted r now s h
  after_on_bridge-IsSlotted broken now s h = fail-IsSlotted "handoff_error" now s h

  bridge-IsSlotted : (now : ℕ) (s : Session Sample W) → IsSlotted s → IsSlotted (bridge host now s)
  unfolding bridge
  bridge-IsSlotted now s h =
      let t : Session Sample W = emit host human_detected now s in
      let k : IsSlotted t = emit-IsSlotted human_detected now s h in
      after_on_bridge-IsSlotted (host.on_bridge t.world).0 now
        (record t { world = (host.on_bridge t.world).1 })
        (record {
          sound = bridge_sound t.world k.sound;
          free = λ e. bridge_idle t.world (k.free e);
        })

  pub start_menu-IsSlotted :
      (now : ℕ) (s : Session Sample W)
      → s.tier2_kind ≡ none
      → IsSlotted s
      → IsSlotted (start_menu host now s)
  unfolding start_menu emit
  start_menu-IsSlotted now s e h =
      let k : IsSlotted (emit host (tier2_woken menu) now s) = emit-IsSlotted _ now s h in
      record { sound = submit_sound _ _ (k.free e) k.sound; free = λ p. cc p }

  start_probe-IsSlotted :
      (now : ℕ) (s : Session Sample W)
      → s.tier2_kind ≡ none
      → IsSlotted s
      → IsSlotted (start_probe host now s)
  unfolding start_probe emit
  start_probe-IsSlotted now s e h =
      let k : IsSlotted (emit host (tier2_woken probe) now s) = emit-IsSlotted _ now s h in
      record { sound = submit_sound _ _ (k.free e) k.sound; free = λ p. cc p }

  pub dispatch-IsSlotted :
      (a : Action) (now : ℕ) (s : Session Sample W)
      → IsSlotted s
      → IsSlotted (dispatch host a now s)
  unfolding dispatch
  dispatch-IsSlotted Action.nothing now s h = h
  dispatch-IsSlotted Action.wake_tier2_menu now s h = same-IsSlotted s _ refl refl h
  dispatch-IsSlotted Action.wake_tier2_probe now s h =
      if_elim IsSlotted (is_some s.tier2_kind) (λ _. h)
        (λ e. start_probe-IsSlotted now s (eq_none s.tier2_kind e) h)
  dispatch-IsSlotted Action.bridge now s h = bridge-IsSlotted now s h
  dispatch-IsSlotted Action.fail now s h = fail-IsSlotted "non_connect" now s h
