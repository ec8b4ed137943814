-- ===== src/Call/Phases.antt =====
-- The phases of the handoff of a call that bridge.py and session.py make together.
use dial_pass.Prelude.{
  ◌<◌, length, ℕ, ◌≡◌, ◌⊎◌, refl, ap, ◌∙◌, Bool, true, false, ◌||◌, Option, none, some, List, [],
  ◌∷◌, String, if_elim, arith,
}
use dial_pass.Prelude.Bytes.{ℤ}
use dial_pass.Fsm.{CallState, state_eq, bridged, completed}
use dial_pass.Breaker.{Outcome, value, raised}
use dial_pass.Tier2.{Answer, decision, verdict}
use dial_pass.Telemetry.Events.{Body, bridge_started, call_completed}
use dial_pass.Executor.{Future, running, finished}
use dial_pass.Bridge.{begin_handoff}
use dial_pass.Fallback.{fallback_message}
use dial_pass.Session.{
  Frame, Classification, underway, unavailable, Session, emit, emit_state_change, fail,
  finish_bridge,
}
use dial_pass.Call.{Wires, user_sms, hand_over, on_session_fail, fallback_text, wired}

-- The outcome is the verdict of a probe that a human answered.
abbrev pub is_human_outcome : Outcome Answer → Bool
is_human_outcome (raised e) = false
is_human_outcome (value (decision d)) = false
is_human_outcome (value (verdict o)) = o.is_human

abbrev pub ends_human : Option (Outcome Answer) → Bool
ends_human none = false
ends_human (some r) = is_human_outcome r

-- A probe of the schedule finds a human.
abbrev pub has_human : List (Option (Outcome Answer)) → Bool
has_human [] = false
has_human (r ∷ rest) = ends_human r || has_human rest

abbrev pub future_human : Option (Future Answer) → Bool
future_human none = false
future_human (some running) = false
future_human (some (finished r)) = is_human_outcome r

abbrev pub human_ahead : Wires → Bool
human_ahead w = future_human w.executor.future || has_human w.schedule

-- The fallback line of the first teardown, where there was one; teardowns are listed latest first.
abbrev pub first_fallback : List String → List String
first_fallback [] = []
first_fallback (r ∷ []) = fallback_message r ∷ []
first_fallback (r ∷ q ∷ rs) = first_fallback (q ∷ rs)

-- The user has heard nothing, and has been texted no more than the fallback line of the first teardown.
pub record IsSilent (w : Wires) : Type 0 where
  pub shut : w.bridge.relay_open ≡ false
  pub untold : w.texts ≡ []
  pub unqueued : w.bridge.outbound_user ≡ []
  pub unsent : w.to_user ≡ []
  pub fallen : w.fallbacks ≡ first_fallback w.teardowns

-- The handoff has not started; has failed, as the user is gone; speaks its holding line; is done.
pub record IsBefore (w : Wires) : Type 0 where
  pub silent : IsSilent w
  pub unstarted : w.bridge.handoff_started ≡ false
  pub no_task : w.bridge.handoff_task ≡ false

pub record IsGone (w : Wires) : Type 0 where
  pub silent : IsSilent w
  pub no_task : w.bridge.handoff_task ≡ false

pub record IsSpeaking (w : Wires) : Type 0 where
  pub silent : IsSilent w
  pub task : w.bridge.handoff_task ≡ true

pub record IsTalking (w : Wires) : Type 0 where
  pub open_ : w.bridge.relay_open ≡ true
  pub no_task : w.bridge.handoff_task ≡ false
  pub told : w.texts ≡ user_sms ∷ []

-- The call has been asked to be torn down.
abbrev pub IsTorn : Wires → Type 0
IsTorn w = 0 < length w.teardowns

-- What a step that has nothing to do with the handoff leaves alone.
pub record Keeps (w v : Wires) : Type 0 where
  pub started : v.bridge.handoff_started ≡ w.bridge.handoff_started
  pub relay : v.bridge.relay_open ≡ w.bridge.relay_open
  pub task : v.bridge.handoff_task ≡ w.bridge.handoff_task
  pub texts : v.texts ≡ w.texts
  pub unheard :
      IsSilent w
      → (v.bridge.outbound_user ≡ [])
        × (v.to_user ≡ [])
        × (v.fallbacks ≡ first_fallback v.teardowns)
  pub torn : IsTorn w → IsTorn v

pub Keeps-IsSilent : (w v : Wires) → Keeps w v → IsSilent w → IsSilent v
Keeps-IsSilent w v k h = record {
  shut = k.relay ∙ h.shut;
  untold = k.texts ∙ h.untold;
  unqueued = (k.unheard h).0;
  unsent = (k.unheard h).1;
  fallen = (k.unheard h).2;
}

pub Keeps-IsBefore : (w v : Wires) → Keeps w v → IsBefore w → IsBefore v
Keeps-IsBefore w v k h = record {
  silent = Keeps-IsSilent w v k h.silent;
  unstarted = k.started ∙ h.unstarted;
  no_task = k.task ∙ h.no_task;
}

pub Keeps-IsGone : (w v : Wires) → Keeps w v → IsGone w → IsGone v
Keeps-IsGone w v k h = record {
  silent = Keeps-IsSilent w v k h.silent;
  no_task = k.task ∙ h.no_task;
}

pub Keeps-IsSpeaking : (w v : Wires) → Keeps w v → IsSpeaking w → IsSpeaking v
Keeps-IsSpeaking w v k h = record { silent = Keeps-IsSilent w v k h.silent; task = k.task ∙ h.task }

pub Keeps-IsTalking : (w v : Wires) → Keeps w v → IsTalking w → IsTalking v
Keeps-IsTalking w v k h = record {
  open_ = k.relay ∙ h.open_;
  no_task = k.task ∙ h.no_task;
  told = k.texts ∙ h.told;
}

pub Keeps-refl : (w : Wires) → Keeps w w
Keeps-refl w = record {
  started = refl;
  relay = refl;
  task = refl;
  texts = refl;
  unheard = λ h. (h.unqueued, h.unsent, h.fallen);
  torn = λ t. t;
}

pub Keeps-trans : (u v w : Wires) → Keeps u v → Keeps v w → Keeps u w
Keeps-trans u v w a b = record {
  started = b.started ∙ a.started;
  relay = b.relay ∙ a.relay;
  task = b.task ∙ a.task;
  texts = b.texts ∙ a.texts;
  unheard = λ h. b.unheard (Keeps-IsSilent u v a h);
  torn = λ t. b.torn (a.torn t);
}

-- `begin_handoff` of a bridge on which none has started.
pub hand_over-cases :
    (key : Bool) (w : Wires)
    → IsBefore w
    → let (o, v) = hand_over key w in
      ((o ≡ unavailable "user_left") × IsGone v) ⊎ ((o ≡ underway) × (IsSpeaking v ⊎ IsTalking v))
unfolding hand_over begin_handoff
hand_over-cases key w h = ground (arith, h.silent)

-- A teardown adds its line only where it is the first.
pub fallback_text-first :
    (rs : List String) (r : String) (texts : List String)
    → texts ≡ first_fallback rs
    → fallback_text rs r texts ≡ first_fallback (r ∷ rs)
fallback_text-first [] r texts e = ap (λ l. fallback_message r ∷ l) e
fallback_text-first (q ∷ rs) r texts e = e

module _ (classify : Frame ℤ → Classification) (key : Bool) where
  pub emit-Keeps :
      (b : Body) (now : ℕ) (s : Session ℤ Wires)
      → Keeps s.world (emit (wired classify key) b now s).world
  unfolding emit
  emit-Keeps b now s = record {
    started = refl;
    relay = refl;
    task = refl;
    texts = refl;
    unheard = λ h. (h.unqueued, h.unsent, h.fallen);
    torn = λ t. t;
  }

  emit_state_change-Keeps :
      (c : CallState) (now : ℕ) (s : Session ℤ Wires)
      → Keeps s.world (emit_state_change (wired classify key) c now s).world
  unfolding emit_state_change
  emit_state_change-Keeps c now s =
      if_elim {A = Session ℤ Wires} (λ t. Keeps s.world t.world) (state_eq s.fsm.state c)
        (λ _. Keeps-refl s.world) (λ _. emit-Keeps _ now s)

  pub fail-Keeps :
      (r : String) (now : ℕ) (s : Session ℤ Wires)
      → Keeps s.world (fail (wired classify key) r now s).world
  unfolding fail emit on_session_fail
  fail-Keeps r now s = record {
    started = refl;
    relay = refl;
    task = refl;
    texts = refl;
    unheard = λ h.
        (h.unqueued, h.unsent, fallback_text-first s.world.teardowns r s.world.fallbacks h.fallen);
    torn = λ t. omega arith;
  }

  pub fail-IsTorn :
      (r : String) (now : ℕ) (s : Session ℤ Wires)
      → IsTorn (fail (wired classify key) r now s).world
  unfolding fail on_session_fail
  fail-IsTorn r now s = omega arith

  pub finish_bridge-Keeps :
      (now : ℕ) (s : Session ℤ Wires)
      → Keeps s.world (finish_bridge (wired classify key) now s).world
  unfolding finish_bridge
  finish_bridge-Keeps now s =
      let a =
        emit_state_change (wired classify key) s.fsm.state now (record s { fsm = bridged s.fsm }) in
      let b = emit (wired classify key) bridge_started now a in
      let c =
        emit_state_change (wired classify key) b.fsm.state now
          (record b { fsm = completed b.fsm }) in
      Keeps-trans s.world a.world _ (emit_state_change-Keeps s.fsm.state now _) (
        Keeps-trans a.world b.world _ (emit-Keeps bridge_started now a) (
          Keeps-trans b.world c.world _ (emit_state_change-Keeps b.fsm.state now _)
            (emit-Keeps (call_completed "human_bridged") now c)))
