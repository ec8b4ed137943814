-- ===== src/Session/Live.antt =====
-- The session of session.py over the executor of the live handler, the threaded one: the hooks and
-- the classifier are parameters, and the ends of the Tier 2 calls are a schedule.
use dial_pass.Prelude.{◌≡◌, refl, String, Bool, false, Option, none, some, List, [], ◌∷◌, arith}
use dial_pass.Fsm.{FsmConfig}
use dial_pass.Breaker.{Outcome}
use dial_pass.Tier2.{Answer}
use dial_pass.Telemetry.Events.{Event}
use dial_pass.Session.{
  Session, Host, Settings, Handoff, feed_audio, new_session, Frame, Classification,
}
use dial_pass.Executor.{ThreadedExecutor, threaded_submit, threaded_poll, threaded_close, complete}
use dial_pass.Session.Slot.{SlotLaws, IsSlotted}
use dial_pass.Session.Slotted.{feed_audio-IsSlotted}
use dial_pass.Session.Log.{LogLaws}

-- The events sent, latest first; the executor; and for each poll to come, what the running call has
-- done by then, if it has ended.
pub record Line : Type 0 where
  pub events : List Event
  pub executor : ThreadedExecutor Answer
  pub schedule : List (Option (Outcome Answer))

abbrev pub next_end : List (Option (Outcome Answer)) → Option (Outcome Answer)
next_end [] = none
next_end (r ∷ rest) = r

abbrev pub later : List (Option (Outcome Answer)) → List (Option (Outcome Answer))
later [] = []
later (r ∷ rest) = rest

-- A line on which nothing was sent and no Tier 2 call is running.
abbrev pub fresh_line : List (Option (Outcome Answer)) → Line
fresh_line schedule = record {
  events = [];
  executor = record { future = none; dropped = 0; shut = false };
  schedule = schedule;
}

unfoldable pub poll_line : Line → Option (Outcome Answer) × Line
unfolding threaded_poll complete
poll_line w =
    let (r, e) = threaded_poll (complete (next_end w.schedule) w.executor) in
    (r, record w { executor = e; schedule = later w.schedule })

module _ {Sample : Type 0} (classify : Frame Sample → Classification) (refuses : String → Bool)
    (handoff : Handoff) where
  abbrev pub live_host : Host Sample Line
  live_host = record {
    classify = classify;
    emit = λ e w. record w { events = e ∷ w.events };
    dtmf_sender = λ d w. (refuses d, w);
    on_bridge = λ w. (handoff, w);
    on_fail = λ r w. record w { executor = threaded_close w.executor };
    submit = λ j w. record w { executor = threaded_submit w.executor };
    poll = poll_line;
    close = λ w. record w { executor = threaded_close w.executor };
  }

  submit-dropped :
      (w : Line)
      → w.executor.future ≡ none
      → w.executor.dropped ≡ 0
      → (threaded_submit w.executor).dropped ≡ 0
  unfolding threaded_submit
  submit-dropped w i h = ground arith

  poll_line-dropped : (w : Line) → w.executor.dropped ≡ 0 → (poll_line w).1.executor.dropped ≡ 0
  unfolding poll_line
  poll_line-dropped w h = ground arith

  poll_line-idle :
      (w : Line) (r : Outcome Answer)
      → (poll_line w).0 ≡ some r
      → (poll_line w).1.executor.future ≡ none
  unfolding poll_line
  poll_line-idle w r e = ground arith

  -- The threaded executor keeps the contract of the slot.
  unfoldable pub live_slot_laws : SlotLaws live_host
  unfolding threaded_close submit-dropped poll_line-dropped poll_line-idle
  live_slot_laws = record {
    Idle = λ w. w.executor.future ≡ none;
    Sound = λ w. w.executor.dropped ≡ 0;
    emit_idle = λ e w h. h;
    emit_sound = λ e w h. h;
    dtmf_idle = λ e w h. h;
    dtmf_sound = λ e w h. h;
    bridge_idle = λ w h. h;
    bridge_sound = λ w h. h;
    fail_idle = λ r w h. h;
    fail_sound = λ r w h. h;
    submit_sound = λ j w i h. submit-dropped w i h;
    poll_sound = λ w h. poll_line-dropped w h;
    poll_idle = λ w r e. poll_line-idle w r e;
  }

  unfoldable pub live_log_laws : LogLaws live_host
  unfolding poll_line
  live_log_laws = record {
    log = λ w. w.events;
    log_emit = λ e w. refl;
    log_dtmf = λ d w. refl;
    log_bridge = λ w. refl;
    log_fail = λ r w. refl;
    log_submit = λ j w. refl;
    log_poll = λ w. refl;
  }

  abbrev pub feed_all : List (List Sample) → Session Sample Line → Session Sample Line
  feed_all [] s = s
  feed_all (c ∷ cs) s = feed_all cs (feed_audio live_host c s)

  feed_all-IsSlotted :
      (cs : List (List Sample)) (s : Session Sample Line)
      → IsSlotted live_host live_slot_laws s
      → IsSlotted live_host live_slot_laws (feed_all cs s)
  feed_all-IsSlotted [] s h = h
  feed_all-IsSlotted (c ∷ cs) s h =
      feed_all-IsSlotted cs (feed_audio live_host c s)
        (feed_audio-IsSlotted live_host live_slot_laws c s h)

  -- Whatever audio a new session is fed, and whenever its Tier 2 calls end, the threaded executor is
  -- never given a job while one is running: it drops none.
  pub never_drops :
      (id : String) (settings : Settings) (cfg : FsmConfig) (goal : Option String)
      → (schedule : List (Option (Outcome Answer))) (cs : List (List Sample))
      → let s = new_session live_host id settings cfg goal (fresh_line schedule) in
        (feed_all cs s).world.executor.dropped ≡ 0
  unfolding new_session live_slot_laws
  never_drops id settings cfg goal schedule cs =
      (feed_all-IsSlotted cs (new_session live_host id settings cfg goal (fresh_line schedule))
        (record { sound = refl; free = λ _. refl })).sound
