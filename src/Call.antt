-- ===== src/Call.antt =====
-- One live call: agent/bridge.py and agent/session.py wired to each other, as `CallBridge.__init__`
-- does it, over the threaded executor of executor.py. The session carries the bridge in its world,
-- where its hooks find it. `on_teardown` and `notify_user`, which media.py gives, are kept as the
-- reasons and the texts that they were called with; the end of each Tier 2 call is a schedule.
pub mod Phases
pub mod Ahead
pub mod Progress
pub mod Handover
mod Examples
use dial_pass.Prelude.{
  ℕ, suc, ◌+◌, String, Bool, true, false, ◌||◌, Option, none, some, List, [], ◌∷◌, ◌++◌, map,
  if◌then◌else◌,
}
use dial_pass.Prelude.Bytes.{ℤ}
use dial_pass.Fsm.{FsmConfig}
use dial_pass.Audio.{ulaw_to_pcm16}
use dial_pass.Breaker.{Outcome}
use dial_pass.Tier2.{Answer}
use dial_pass.Telemetry.Events.{Event}
use dial_pass.Executor.{ThreadedExecutor, threaded_submit, threaded_poll, threaded_close, complete}
use dial_pass.Bridge
use dial_pass.Bridge.{
  Bytes, Message, CallBridge, Begun, opened, scheduled, already, user_left, new_bridge, bind_agent,
  bind_user, begin_probe, end_probe, begin_handoff, finish_handoff, press_dtmf, play_to_agent,
  drain_agent, drain_user, on_user_audio,
}
use dial_pass.Fallback.{fallback_message}
use dial_pass.Session
use dial_pass.Session.{
  Frame, Classification, Settings, Handoff, underway, unavailable, Host, Session, new_session,
  feed_audio, abort,
}

-- `_USER_SMS`
abbrev pub user_sms : String
user_sms = "DialPass reached a live agent — you're connected now. Go ahead and talk."

-- What the session reaches through its hooks, its sink and its executor: the events sent, latest
-- first; for each poll to come, what the running call has done by then, if it has ended; the clock;
-- latest first, the texts that `notify_user` was called with, the reasons of the teardowns asked for,
-- and the fallback lines that these have texted; and what the sockets have sent to each leg.
pub record Wires : Type 0 where
  pub events : List Event
  pub executor : ThreadedExecutor Answer
  pub schedule : List (Option (Outcome Answer))
  pub clock : ℕ
  pub bridge : CallBridge
  pub texts : List String
  pub teardowns : List String
  pub fallbacks : List String
  pub to_agent : List Message
  pub to_user : List Message

abbrev pub new_wires : String → List (Option (Outcome Answer)) → Wires
new_wires group schedule = record {
  events = [];
  executor = record { future = none; dropped = 0; shut = false };
  schedule = schedule;
  clock = 0;
  bridge = new_bridge group;
  texts = [];
  teardowns = [];
  fallbacks = [];
  to_agent = [];
  to_user = [];
}

abbrev pub next_end : List (Option (Outcome Answer)) → Option (Outcome Answer)
next_end [] = none
next_end (r ∷ rest) = r

abbrev pub later : List (Option (Outcome Answer)) → List (Option (Outcome Answer))
later [] = []
later (r ∷ rest) = rest

-- The executor's `poll`, by which time the running call may have ended.
unfoldable pub poll_wires : Wires → Option (Outcome Answer) × Wires
unfolding threaded_poll complete
poll_wires w =
    let (r, e) = threaded_poll (complete (next_end w.schedule) w.executor) in
    (r, record w { executor = e; schedule = later w.schedule })

-- How `begin_handoff` ends for the session.
abbrev pub handoff_of : Begun → Handoff
handoff_of opened = underway
handoff_of scheduled = underway
handoff_of already = underway
handoff_of user_left = unavailable "user_left"

-- The text that is due at once.
abbrev pub text_now : Begun → List String → List String
text_now opened texts = user_sms ∷ texts
text_now _ texts = texts

-- `session.on_bridge = self.begin_handoff`, with the text that it sends.
unfoldable pub hand_over : Bool → Wires → Handoff × Wires
hand_over key w =
    let (begun, b) = begin_handoff key w.bridge in
    (handoff_of begun, record w { bridge = b; texts = text_now begun w.texts })

-- `_do_handoff` after its wait: the relay opens, and the user is texted.
unfoldable pub finish_task : Wires → Wires
finish_task w =
    if w.bridge.handoff_task
    then record w { bridge = finish_handoff w.bridge; texts = user_sms ∷ w.texts }
    else w

-- The text of a teardown: `_teardown_group` sends it where it finds the bridge, which is the first time.
abbrev pub fallback_text : List String → String → List String → List String
fallback_text [] reason texts = fallback_message reason ∷ texts
fallback_text (earlier ∷ _) reason texts = texts

-- `on_session_fail`, with the text of `on_teardown`; the end of the hub by it is an event of its own.
unfoldable pub on_session_fail : String → Wires → Wires
on_session_fail reason w = record w {
  teardowns = reason ∷ w.teardowns;
  fallbacks = fallback_text w.teardowns reason w.fallbacks;
}

-- What reaches a call from outside, between its start and its end.
pub data CallEvent : Type 0 where
  -- the sockets: a stream starts, a frame comes in, a write task drains its queue
  agent_bound user_bound : String → CallEvent
  agent_frame user_frame : Bytes → CallEvent
  agent_drained user_drained : CallEvent
  -- the socket of the user leg ends
  user_ended : CallEvent
  -- the exchanges: a probe begins and ends, the model's audio is played, the holding line is over
  probe_begun probe_ended : CallEvent
  played : List ℤ → CallEvent
  line_spoken : CallEvent
  -- the call ends for a reason, and time passes
  hung_up : String → CallEvent
  closed : CallEvent
  waited : ℕ → CallEvent

unfoldable pub on_wires : (Wires → Wires) → Session ℤ Wires → Session ℤ Wires
on_wires f s = record s { world = f s.world }

unfoldable pub on_hub : (CallBridge → CallBridge) → Session ℤ Wires → Session ℤ Wires
unfolding on_wires
on_hub f s = on_wires (λ w. record w { bridge = f w.bridge }) s

-- What the write task of a socket does with the queue of its leg.
abbrev pub send_agent : Wires → Wires
send_agent w =
    let (out, b) = drain_agent w.bridge in record w { bridge = b; to_agent = w.to_agent ++ out }

abbrev pub send_user : Wires → Wires
send_user w =
    let (out, b) = drain_user w.bridge in record w { bridge = b; to_user = w.to_user ++ out }

module _ (classify : Frame ℤ → Classification) (key : Bool) where
  -- The hooks of `CallBridge.__init__`, with the executor and the sink.
  abbrev pub wired : Host ℤ Wires
  wired = record {
    classify = classify;
    emit = λ e w. record w { events = e ∷ w.events };
    dtmf_sender = λ d w. (false, record w { bridge = press_dtmf d w.clock w.bridge });
    on_bridge = hand_over key;
    on_fail = on_session_fail;
    submit = λ j w. record w { executor = threaded_submit w.executor };
    poll = poll_wires;
    close = λ w. record w { executor = threaded_close w.executor };
  }

  -- `CallBridge.on_agent_audio`, whole.
  unfoldable pub on_agent_audio : Bytes → Session ℤ Wires → Session ℤ Wires
  on_agent_audio ulaw s =
      let t = on_hub (Bridge.on_agent_audio ulaw) s in
      if t.finished then t else feed_audio wired (ulaw_to_pcm16 ulaw) t

  -- `CallBridge.close`, the recorder apart.
  unfoldable pub close : Session ℤ Wires → Session ℤ Wires
  close s = if s.world.bridge.closed then s else Session.close wired (on_hub Bridge.close s)

  -- The end of `_serve_user_leg`: without its user, a call that is not over is given up before the
  -- relay is open.
  unfoldable pub end_user_leg : Session ℤ Wires → Session ℤ Wires
  end_user_leg s =
      let t = on_hub (λ b. record b { user_stream_sid = none }) s in
      if t.world.bridge.relay_open || t.finished then t else abort wired "user_left" t

  -- One event of a call.
  unfoldable pub step : CallEvent → Session ℤ Wires → Session ℤ Wires
  step (agent_bound sid) s = on_hub (bind_agent sid true) s
  step (user_bound sid) s = on_hub (bind_user sid) s
  step (agent_frame ulaw) s = on_agent_audio ulaw s
  step (user_frame ulaw) s = on_hub (on_user_audio ulaw) s
  step agent_drained s = on_wires send_agent s
  step user_drained s = on_wires send_user s
  step user_ended s = end_user_leg s
  step probe_begun s = on_hub begin_probe s
  step probe_ended s = on_hub end_probe s
  step (played pcm) s = on_hub (play_to_agent pcm) s
  step line_spoken s = on_wires finish_task s
  step (hung_up reason) s = abort wired reason s
  step closed s = close s
  step (waited n) s = on_wires (λ w. record w { clock = w.clock + n }) s

  unfoldable pub run : List CallEvent → Session ℤ Wires → Session ℤ Wires
  run [] s = s
  run (e ∷ es) s = run es (step e s)

  -- A session that `CallBridge.__init__` has wired.
  unfoldable pub new_call :
      String
      → String
      → Settings
      → FsmConfig
      → Option String
      → List (Option (Outcome Answer))
      → Session ℤ Wires
  unfolding new_session new_bridge
  new_call group call settings cfg goal schedule =
      new_session wired call settings cfg goal (new_wires group schedule)
