-- ===== src/Bridge.antt =====
-- src/dialpass/agent/bridge.py: the audio hub of one call. A frame is its bytes; base64 and the JSON
-- of a message are left out. The queues and flags are the fields of the record; what the bridge
-- starts on a thread or a task is kept in a field of its own.
pub mod Hub
pub mod Silence
pub mod Relay
pub mod Keys
mod Examples
use Prim.Native.String
use Prim.Native.Char.{Char, code}
use dial_pass.Prelude.{
  ℕ, zero, suc, ◌+◌, String, Bool, true, false, not, ◌&&◌, ◌||◌, Option, none, some, List, [], ◌∷◌,
  ◌++◌, chunks, length, is_some, leb, ◌==◌, if◌then◌else◌,
}
use dial_pass.Prelude.Text.{is_empty}
use dial_pass.Prelude.Bytes.{ℤ}
use dial_pass.Audio.{pcm16_to_ulaw}

abbrev pub Bytes : Type 0
Bytes = List ℕ

-- `_FRAME`
abbrev pub frame_size : ℕ
frame_size = 160

-- A Twilio `media` message: its stream and its payload.
pub record Message : Type 0 where
  pub stream_sid : String
  pub payload : Bytes

pub record CallBridge : Type 0 where
  pub group_id : String
  pub agent_stream_sid : Option String
  pub user_stream_sid : Option String
  pub has_loop : Bool
  pub outbound_agent : List Message
  pub outbound_user : List Message
  pub probe_inbound : Option (List Bytes)
  pub reconnecting : Bool
  pub reconnect_since : Option ℕ
  pub relay_open : Bool
  pub handoff_started : Bool
  pub handoff_task : Bool  -- `_do_handoff` is scheduled
  pub redirects : List String  -- the keys of each redirect thread started, latest first
  pub closed : Bool

-- `__init__`
unfoldable pub new_bridge : String → CallBridge
new_bridge group = record {
  group_id = group;
  agent_stream_sid = none;
  user_stream_sid = none;
  has_loop = false;
  outbound_agent = [];
  outbound_user = [];
  probe_inbound = none;
  reconnecting = false;
  reconnect_since = none;
  relay_open = false;
  handoff_started = false;
  handoff_task = false;
  redirects = [];
  closed = false;
}

-- `bind_agent`
unfoldable pub bind_agent : String → Bool → CallBridge → CallBridge
bind_agent sid loop b = record b { agent_stream_sid = some sid; has_loop = loop }

-- `bind_user`
unfoldable pub bind_user : String → CallBridge → CallBridge
bind_user sid b = record b { user_stream_sid = some sid }

-- `_frame`
abbrev pub frame : String → Bytes → Message
frame sid ulaw = record { stream_sid = sid; payload = ulaw }

abbrev pub tee : Bytes → Option (List Bytes) → Option (List Bytes)
tee ulaw none = none
tee ulaw (some q) = some (q ++ ulaw ∷ [])

-- A frame joins a leg's queue if the leg is bound and the relay is open.
abbrev pub relayed : Bool → Option String → Bytes → List Message → List Message
relayed false sid ulaw q = q
relayed true none ulaw q = q
relayed true (some sid) ulaw q = q ++ frame sid ulaw ∷ []

-- `on_agent_audio` up to the session, which is fed next if it is not finished.
unfoldable pub on_agent_audio : Bytes → CallBridge → CallBridge
on_agent_audio ulaw b = record b {
  probe_inbound = tee ulaw b.probe_inbound;
  outbound_user = relayed b.relay_open b.user_stream_sid ulaw b.outbound_user;
}

-- `run_probe` up to the exchange, which is given the queue, and its end, however the exchange ends.
unfoldable pub begin_probe : CallBridge → CallBridge
begin_probe b = record b { probe_inbound = some [] }

unfoldable pub end_probe : CallBridge → CallBridge
end_probe b = record b { probe_inbound = none }

-- `on_user_audio`
unfoldable pub on_user_audio : Bytes → CallBridge → CallBridge
on_user_audio ulaw b = record b {
  outbound_agent = relayed b.relay_open b.agent_stream_sid ulaw b.outbound_agent;
}

abbrev pub is_key : Char → Bool
is_key c = let n = code c in (leb b'0' n && leb n b'9') || (n == b'*' || n == b'#')

-- The keys in a text that a telephone has.
unfoldable pub keys : String → String
keys String.[] = String.[]
keys (String.◌∷◌ c s) = let rest = keys s in if is_key c then String.◌∷◌ c rest else rest

-- `press_dtmf`, at a reading of the clock.
unfoldable pub press_dtmf : String → ℕ → CallBridge → CallBridge
press_dtmf digits now b =
    let safe = keys digits in
    if is_empty safe || not (is_some b.agent_stream_sid) then b else record b {
      reconnecting = true;
      reconnect_since = some now;
      redirects = safe ∷ b.redirects;
    }

-- The slices of `play_to_agent`, on fuel.
unfoldable pub slices : ℕ → Bytes → List Bytes
unfolding chunks
slices fuel ulaw = chunks frame_size fuel ulaw

abbrev pub frames : String → List Bytes → List Message
frames sid [] = []
frames sid (c ∷ cs) = frame sid c ∷ frames sid cs

abbrev pub queue_slices : Option String → Bytes → List Message → List Message
queue_slices none ulaw q = q
queue_slices (some sid) ulaw q = q ++ frames sid (slices (length ulaw) ulaw)

-- What is played, in G.711; the slices are no more than the bytes.
unfoldable pub queue_ulaw : Bytes → CallBridge → CallBridge
unfolding slices
queue_ulaw ulaw b = record b {
  outbound_agent = queue_slices b.agent_stream_sid ulaw b.outbound_agent;
}

-- `play_to_agent`
unfoldable pub play_to_agent : List ℤ → CallBridge → CallBridge
unfolding queue_ulaw
play_to_agent pcm16 b = queue_ulaw (pcm16_to_ulaw pcm16) b

-- `drain_agent`
unfoldable pub drain_agent : CallBridge → List Message × CallBridge
drain_agent b = (b.outbound_agent, record b { outbound_agent = [] })

-- `drain_user`
unfoldable pub drain_user : CallBridge → List Message × CallBridge
drain_user b = (b.outbound_user, record b { outbound_user = [] })

-- How `begin_handoff` leaves the call: a text to the user is due now, a task will open the relay,
-- nothing is left to do, or it raised `HandoffUnavailable("user_left")`.
pub data Begun : Type 0 where
  opened scheduled already user_left : Begun

-- `begin_handoff`; `key` says whether an API key is set.
unfoldable pub begin_handoff : Bool → CallBridge → Begun × CallBridge
begin_handoff key b =
    let c = record b { handoff_started = true } in
    if b.handoff_started
    then (already, b)
    else if not (is_some c.user_stream_sid)
    then (user_left, c)
    else if not c.has_loop || not key
    then (opened, record c { relay_open = true })
    else (scheduled, record c { handoff_task = true })

-- The wait of `_do_handoff`: the rounds slept, of those left, until the queue is seen empty.
unfoldable pub drain_wait : ℕ → ℕ → (ℕ → Bool) → ℕ
drain_wait zero i empty = i
drain_wait (suc rounds) i empty =
    let rest = drain_wait rounds (i + 1) empty in if empty i then i else rest

-- The end of `_do_handoff`, after which the user is texted.
unfoldable pub finish_handoff : CallBridge → CallBridge
finish_handoff b = record b { relay_open = true; handoff_task = false }

-- `close`, on the bridge itself.
unfoldable pub close : CallBridge → CallBridge
close b = if b.closed then b else record b { closed = true }
