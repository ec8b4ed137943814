-- ===== src/Bridge/Hub.antt =====
-- The hub of bridge.py with the two sockets that drain it: its events, and what each leg is owed.
use dial_pass.Prelude.{
  ℕ, ◌≡◌, refl, ap, ◌∙◌, String, Bool, true, false, Option, none, some, List, [], ◌∷◌, ◌++◌,
  append-nil, append_assoc, length, arith,
}
use dial_pass.Prelude.Bytes.{ℤ}
use dial_pass.Audio.{pcm16_to_ulaw}
use dial_pass.Bridge.{
  Bytes, Message, CallBridge, frame, frames, slices, on_agent_audio, on_user_audio, press_dtmf,
  play_to_agent, drain_agent, drain_user, finish_handoff, relayed, queue_slices,
}

-- What happens at the hub between the binding of the legs and the end of the call.
pub data HubEvent : Type 0 where
  agent_spoke user_spoke : Bytes → HubEvent
  played : List ℤ → HubEvent
  drained_agent drained_user : HubEvent
  pressed : String → ℕ → HubEvent
  handed : HubEvent

-- The bridge, with the messages that its sockets have sent to the agent and to the user.
pub record Hub : Type 0 where
  pub bridge : CallBridge
  pub to_agent : List Message
  pub to_user : List Message

unfoldable pub step : HubEvent → Hub → Hub
unfolding on_agent_audio on_user_audio play_to_agent drain_agent drain_user press_dtmf
    finish_handoff
step (agent_spoke ulaw) h = record h { bridge = on_agent_audio ulaw h.bridge }
step (user_spoke ulaw) h = record h { bridge = on_user_audio ulaw h.bridge }
step (played pcm) h = record h { bridge = play_to_agent pcm h.bridge }
step drained_agent h =
    let (out, b) = drain_agent h.bridge in record h { bridge = b; to_agent = h.to_agent ++ out }
step drained_user h =
    let (out, b) = drain_user h.bridge in record h { bridge = b; to_user = h.to_user ++ out }
step (pressed digits now) h = record h { bridge = press_dtmf digits now h.bridge }
step handed h = record h { bridge = finish_handoff h.bridge }

unfoldable pub run : List HubEvent → Hub → Hub
unfolding step
run [] h = h
run (e ∷ es) h = run es (step e h)

-- What was sent to a leg, and what waits for it.
abbrev pub user_total : Hub → List Message
user_total h = h.to_user ++ h.bridge.outbound_user

abbrev pub agent_total : Hub → List Message
agent_total h = h.to_agent ++ h.bridge.outbound_agent

abbrev pub NotHanded : HubEvent → Type 0
NotHanded handed = ⊥
NotHanded _ = Unit

-- What the AI played into the call, as the frames that it is cut into.
abbrev pub spoken : String → HubEvent → List Message
spoken sid (played pcm) = let ulaw = pcm16_to_ulaw pcm in frames sid (slices (length ulaw) ulaw)
spoken sid _ = []

-- What an event owes to each leg once the relay is open.
abbrev pub owed_to_user : String → HubEvent → List Message
owed_to_user sid (agent_spoke ulaw) = frame sid ulaw ∷ []
owed_to_user sid _ = []

abbrev pub owed_to_agent : String → HubEvent → List Message
owed_to_agent sid (played pcm) =
    let ulaw = pcm16_to_ulaw pcm in frames sid (slices (length ulaw) ulaw)
owed_to_agent sid (user_spoke ulaw) = frame sid ulaw ∷ []
owed_to_agent sid _ = []

abbrev pub gather : (HubEvent → List Message) → List HubEvent → List Message
gather f [] = []
gather f (e ∷ es) = f e ++ gather f es

-- What `step` keeps of the bindings, and what it adds to the totals.
pub record Owes (user agent : List Message) (h k : Hub) : Type 0 where
  pub user_got : user_total k ≡ user_total h ++ user
  pub agent_got : agent_total k ≡ agent_total h ++ agent
  pub agent_bound : k.bridge.agent_stream_sid ≡ h.bridge.agent_stream_sid
  pub user_bound : k.bridge.user_stream_sid ≡ h.bridge.user_stream_sid

-- The shapes of a total: what joins a queue, and what leaves it.
pub joins : (a b c : List Message) → a ++ (b ++ c) ≡ (a ++ b) ++ c
joins a b c = simp append_assoc

pub same : (a : List Message) → a ≡ a ++ []
same a = simp append-nil

pub relayed-shut :
    (b : Bool) (sid : Option String) (ulaw : Bytes) (q : List Message)
    → b ≡ false
    → relayed b sid ulaw q ≡ q
relayed-shut true sid ulaw q e = cc e
relayed-shut false sid ulaw q e = refl

pub relayed-open :
    (b : Bool) (sid : Option String) (k : String) (ulaw : Bytes) (q : List Message)
    → b ≡ true
    → sid ≡ some k
    → relayed b sid ulaw q ≡ q ++ frame k ulaw ∷ []
relayed-open true none k ulaw q e f = cc f
relayed-open true (some j) k ulaw q e f = ground arith
relayed-open false sid k ulaw q e f = cc e

module _ (sid : String) where
  queued :
      (o : Option String) (ulaw : Bytes) (q : List Message)
      → o ≡ some sid
      → queue_slices o ulaw q ≡ q ++ frames sid (slices (length ulaw) ulaw)
  queued none ulaw q e = cc e
  queued (some j) ulaw q e = ground arith

  pub played-owes :
      (pcm : List ℤ) (h : Hub)
      → h.bridge.agent_stream_sid ≡ some sid
      → let ulaw = pcm16_to_ulaw pcm in
        agent_total (step (played pcm) h) ≡ agent_total h ++ frames sid (slices (length ulaw) ulaw)
  unfolding step
  played-owes pcm h bound =
      let ulaw : Bytes = pcm16_to_ulaw pcm in
      ap (λ q. h.to_agent ++ q)
        (queued h.bridge.agent_stream_sid ulaw h.bridge.outbound_agent bound)
      ∙ joins h.to_agent h.bridge.outbound_agent (frames sid (slices (length ulaw) ulaw))

  pub pressed-Owes : (d : String) (now : ℕ) (h : Hub) → Owes [] [] h (step (pressed d now) h)
  unfolding step
  pressed-Owes d now h =
      let total = same (user_total h) in
      let total_agent = same (agent_total h) in ground (arith, total, total_agent)
