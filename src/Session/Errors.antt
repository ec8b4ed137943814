-- ===== src/Session/Errors.antt =====
-- What the result of a Tier 2 call does to a live call of session.py.
use dial_pass.Prelude.{ℕ, ◌≡◌, String, Bool, true, false, none, some, if◌then◌else◌, arith}
use dial_pass.Fsm
use dial_pass.Fsm.{
  is_ivr_menu, Action, CallState, CallStateMachine, FsmConfig, bridged, completed, note_menu_action,
  note_menu_abstained, observe, enter, streak_for, handlers, live_states, state_index, state_eq,
  fall_back_to_hold, new_machine, default_config,
}
use dial_pass.Breaker.{Error, value, raised}
use dial_pass.Tier2.{ProbeOutcome, verdict}
use dial_pass.Telemetry.Events.{
  Kind, menu, probe, Body, state_changed, probe_result, human_detected, call_failed,
}
use dial_pass.Session.{
  Session, Host, Handoff, underway, emit, emit_state_change, fail, finish_bridge, after_on_bridge,
  bridge, dispatch, apply_probe, on_error, on_result, on_poll, poll_kind, poll_tier2,
}

-- The errors that end the call: every one of a probe, and of a menu read those that say that Tier 2
-- is out for good.
abbrev pub is_fatal : Error → Kind → Bool
is_fatal e probe = true
is_fatal Error.not_implemented menu = true
is_fatal Error.circuit_open menu = true
is_fatal e menu = false

abbrev pub reason : Error → String
reason Error.not_implemented = "tier2_not_implemented"
reason Error.circuit_open = "tier2_unavailable"
reason Error.tier2_unavailable = "tier2_unavailable"
reason _ = "tier2_error"

module _ {Sample W : Type 0} (host : Host Sample W) where
  -- The world after one `CallFailed` and then `on_fail`.
  abbrev pub failed_world : String → ℕ → String → W → W
  failed_world id now r w =
      host.on_fail r (host.emit (record { call_id = id; t = now; body = call_failed r }) w)

  -- A Tier 2 call that raised frees the slot. A fatal error ends the call: one `CallFailed` with the
  -- error's reason, then one call of `on_fail` with it. Nothing else of the session changes, and at
  -- any other error nothing but the slot does.
  pub poll_raised :
      (e : Error) (k : Kind) (now : ℕ) (s : Session Sample W)
      → s.tier2_kind ≡ some k
      → (host.poll s.world).0 ≡ some (raised e)
      → let w = (host.poll s.world).1 in
        let freed = record s { tier2_kind = none; world = w } in
        poll_tier2 host now s ≡ (
          if is_fatal e k
          then record freed { finished = true; world = failed_world s.call_id now (reason e) w }
          else freed)
  unfolding poll_tier2 poll_kind on_poll on_result on_error fail emit
  poll_raised e k now s slot got = rw (slot, got) (ground arith)

  -- The state that a verdict leads to, where a probe is awaited.
  abbrev pub verdict_state : Bool → Handoff → CallState
  verdict_state false o = CallState.on_hold
  verdict_state true underway = CallState.done
  verdict_state true _ = CallState.human_detected

  -- The world in which a verdict of a human asks for the handoff.
  abbrev pub handoff_world : String → ℕ → W → W
  handoff_world id now w =
      let send = λ (b : Body) (v : W). host.emit (record { call_id = id; t = now; body = b }) v in
      send human_detected (
        send (state_changed CallState.evaluating_speech CallState.human_detected)
          (send (probe_result true) w))

  -- The verdict of an awaited probe frees the slot. "Not a human" sends the machine to ON_HOLD and
  -- the call goes on; "human" ends it: DONE if the handoff got under way, and else with the machine
  -- left in HUMAN_DETECTED.
  pub poll_verdict :
      (o : ProbeOutcome) (now : ℕ) (s : Session Sample W)
      → s.tier2_kind ≡ some probe
      → (host.poll s.world).0 ≡ some (value (verdict o))
      → s.fsm.state ≡ CallState.evaluating_speech
      → s.finished ≡ false
      → let t = poll_tier2 host now s in
        let handoff = (host.on_bridge (handoff_world s.call_id now (host.poll s.world).1)).0 in
        (t.tier2_kind ≡ none)
        × (t.finished ≡ o.is_human)
        × (t.fsm.state ≡ verdict_state o.is_human handoff)
  unfolding poll_tier2 poll_kind on_poll on_result apply_probe dispatch bridge after_on_bridge fail
      finish_bridge emit emit_state_change Fsm.probe_result state_index bridged completed
  poll_verdict o now s slot got e live = rw (slot, got) (ground arith)
