-- ===== src/Call/Progress.antt =====
-- The progress of the handoff in the steps of a call of bridge.py and session.py.
use dial_pass.Prelude.{ℕ, ◌≡◌, ◌⊎◌, refl, inl, inr, Bool, true, arith}
use dial_pass.Prelude.Bytes.{ℤ}
use dial_pass.Fsm.{CallState, completed}
use dial_pass.Telemetry.Events.{human_detected}
use dial_pass.Executor.{threaded_submit}
use dial_pass.Bridge.{CallBridge}
use dial_pass.Session.{
  Frame, Classification, Handoff, underway, unavailable, Session, emit, emit_state_change, broken,
  finish_bridge, after_on_bridge, bridge,
}
use dial_pass.Session.Quiet.{QuietLaws, IsHanded}
use dial_pass.Call.{Wires, poll_wires, hand_over, on_session_fail, wired, on_wires, on_hub}
use dial_pass.Call.Ahead.{
  on_session_fail-IsTorn, poll_wires-ahead, submit-ahead, same_bridge, press_dtmf-Keeps,
}
use dial_pass.Call.Phases.{
  fallback_text-first, human_ahead, IsBefore, IsGone, IsSpeaking, IsTalking, IsTorn, fail-IsTorn,
  Keeps, Keeps-IsBefore, Keeps-IsGone, Keeps-IsSpeaking, Keeps-IsTalking, hand_over-cases,
  emit-Keeps, fail-Keeps, finish_bridge-Keeps,
}

module _ (classify : Frame ℤ → Classification) (key : Bool) (found : Bool) where
  -- The handoff has not started, and a human who is still ahead is one of those found.
  pub record IsWaiting (w : Wires) : Type 0 where
    pub before : IsBefore w
    pub known : human_ahead w ≡ true → found ≡ true

  pub Keeps-IsWaiting :
      (w v : Wires)
      → Keeps w v
      → (human_ahead v ≡ true → human_ahead w ≡ true)
      → IsWaiting w
      → IsWaiting v
  Keeps-IsWaiting w v k a h = record {
    before = Keeps-IsBefore w v k h.before;
    known = λ e. h.known (a e);
  }

  -- And if the call is over, it has been asked to be torn down.
  abbrev pub IsUnhanded : Bool → Wires → Type 0
  IsUnhanded over w = IsWaiting w × (over ≡ true → IsTorn w)

  pub Keeps-IsUnhanded :
      (over : Bool) (w v : Wires)
      → Keeps w v
      → (human_ahead v ≡ true → human_ahead w ≡ true)
      → IsUnhanded over w
      → IsUnhanded over v
  Keeps-IsUnhanded over w v k a h = (Keeps-IsWaiting w v k a h.0, λ e. k.torn (h.1 e))

  unfoldable pub waiting_laws : QuietLaws (wired classify key)
  unfolding poll_wires threaded_submit on_session_fail
  waiting_laws = record {
    Quiet = IsUnhanded;
    Confirmed = found ≡ true;
    emit_quiet = λ b e w h.
        Keeps-IsUnhanded b w _ (same_bridge w _ refl refl refl (λ t. t) (λ t. t)) (λ e. e) h;
    dtmf_quiet = λ b d w h. Keeps-IsUnhanded b w _ (press_dtmf-Keeps d w) (λ e. e) h;
    fail_quiet = λ b r w h. (
      Keeps-IsWaiting w _
          (same_bridge w _ refl refl refl (fallback_text-first w.teardowns r w.fallbacks)
            (λ t. on_session_fail-IsTorn r w))
          (λ e. e) h.0,
      λ _. on_session_fail-IsTorn r w,
    );
    submit_quiet = λ b j w h.
        Keeps-IsUnhanded b w _ (same_bridge w _ refl refl refl (λ t. t) (λ t. t)) (submit-ahead w)
          h;
    poll_quiet = λ b w h.
        Keeps-IsUnhanded b w _ (same_bridge w _ refl refl refl (λ t. t) (λ t. t))
          (poll_wires-ahead w).0 h;
    confirm = λ b w o h e human. h.0.known ((poll_wires-ahead w).1 o e human);
  }

  -- The call is over, and its handoff has failed, as the user is gone, or is under way or done.
  abbrev pub IsAfter : CallState → Wires → Type 0
  IsAfter c w =
      (IsGone w × IsTorn w) ⊎ ((found ≡ true) × (c ≡ CallState.done) × (IsSpeaking w ⊎ IsTalking w))

  abbrev pub IsPhase : Session ℤ Wires → Type 0
  IsPhase s = IsUnhanded s.finished s.world ⊎ ((s.finished ≡ true) × IsAfter s.fsm.state s.world)

  Keeps-IsAfter : (c : CallState) (w v : Wires) → Keeps w v → IsAfter c w → IsAfter c v
  Keeps-IsAfter c w v k (inl (gone, torn)) = inl (Keeps-IsGone w v k gone, k.torn torn)
  Keeps-IsAfter c w v k (inr (f, d, inl speaking)) =
      inr (f, d, inl (Keeps-IsSpeaking w v k speaking))
  Keeps-IsAfter c w v k (inr (f, d, inr talking)) = inr (f, d, inr (Keeps-IsTalking w v k talking))

  finish_bridge-done :
      (now : ℕ) (s : Session ℤ Wires)
      → (finish_bridge (wired classify key) now s).fsm.state ≡ CallState.done
  unfolding finish_bridge emit emit_state_change completed
  finish_bridge-done now s = ground arith

  after_on_bridge-IsAfter :
      (o : Handoff) (now : ℕ) (s : Session ℤ Wires)
      → found ≡ true
      → ((o ≡ unavailable "user_left") × IsGone s.world)
        ⊎ ((o ≡ underway) × (IsSpeaking s.world ⊎ IsTalking s.world))
      → let t = after_on_bridge (wired classify key) o now s in IsAfter t.fsm.state t.world
  unfolding after_on_bridge
  after_on_bridge-IsAfter underway now s f (inl (e, gone)) = cc e
  after_on_bridge-IsAfter underway now s f (inr (e, after)) =
      let t : Session ℤ Wires = finish_bridge (wired classify key) now s in
      rw (finish_bridge-done now s) (
        Keeps-IsAfter CallState.done s.world t.world (finish_bridge-Keeps classify key now s)
          (inr (f, refl, after)))
  after_on_bridge-IsAfter (unavailable r) now s f (inl (e, gone)) = inl (
    Keeps-IsGone s.world _ (fail-Keeps classify key r now s) gone,
    fail-IsTorn classify key r now s,
  )
  after_on_bridge-IsAfter (unavailable r) now s f (inr (e, after)) = cc e
  after_on_bridge-IsAfter broken now s f (inl (e, gone)) = cc e
  after_on_bridge-IsAfter broken now s f (inr (e, after)) = cc e

  bridge-IsAfter :
      (now : ℕ) (s : Session ℤ Wires)
      → found ≡ true
      → IsWaiting s.world
      → let t = bridge (wired classify key) now s in IsAfter t.fsm.state t.world
  unfolding bridge
  bridge-IsAfter now s f h =
      let t : Session ℤ Wires = emit (wired classify key) human_detected now s in
      after_on_bridge-IsAfter (hand_over key t.world).0 now
        (record t { world = (hand_over key t.world).1 }) f
        (hand_over-cases key t.world
          (Keeps-IsBefore s.world t.world (emit-Keeps classify key human_detected now s) h.before))

  pub IsHanded-IsAfter :
      (t : Session ℤ Wires)
      → IsHanded (wired classify key) waiting_laws t
      → IsAfter t.fsm.state t.world
  unfolding waiting_laws
  IsHanded-IsAfter t h =
      rw (h.machine, h.world) (bridge-IsAfter h.now h.before h.confirmed h.quiet.0)

  -- A step that leaves the handoff alone keeps the phase.
  pub on_wires-IsPhase :
      (f : Wires → Wires) (s : Session ℤ Wires)
      → Keeps s.world (f s.world)
      → (human_ahead (f s.world) ≡ true → human_ahead s.world ≡ true)
      → IsPhase s
      → IsPhase (on_wires f s)
  unfolding on_wires
  on_wires-IsPhase f s k a (inl h) = inl (Keeps-IsUnhanded s.finished s.world _ k a h)
  on_wires-IsPhase f s k a (inr (over, h)) = inr (over, Keeps-IsAfter s.fsm.state s.world _ k h)

  pub on_hub-IsPhase :
      (f : CallBridge → CallBridge) (s : Session ℤ Wires)
      → ((w : Wires) → Keeps w (record w { bridge = f w.bridge }))
      → IsPhase s
      → IsPhase (on_hub f s)
  unfolding on_hub
  on_hub-IsPhase f s k h =
      on_wires-IsPhase (λ w. record w { bridge = f w.bridge }) s (k s.world) (λ a. a) h
