-- ===== src/Media.antt =====
-- src/dialpass/api/media.py and the creation of a call in src/dialpass/api/calls.py: the calls of the
-- process and how they end. The bridges are objects, which the dictionaries of `app.state` and the
-- open sockets share: an object is a number, and `objects` maps it to its state. Of a session, this
-- module reads only what `Call` holds. Each request to Twilio is kept, latest first; the methods that
-- the source wraps in a `try` may raise without any effect here but their log message.
pub mod Legs
pub mod Closing
pub mod Teardown
pub mod Redial
pub mod Reap
pub mod Drops
pub mod Lost
pub mod Socket
pub mod Sockets
pub mod Waiting
pub mod Writing
pub mod Pressing
mod Examples
use dial_pass.Prelude.{
  ℕ, suc, ◌+◌, ◌*◌, String, Bool, true, false, not, ◌&&◌, ◌||◌, Option, none, some, List, [], ◌∷◌,
  ltb, leb, ◌==◌, is_some, str_eq, str_append, if◌then◌else◌,
}
use dial_pass.Prelude.Dict.{Dict, lookup, insert, erase}
use dial_pass.Bridge.{CallBridge, new_bridge, bind_agent, bind_user}
use dial_pass.Bridge
use dial_pass.Fallback.{fallback_message}

-- A bridge with the fields of its session that this module reads.
pub record Call : Type 0 where
  pub bridge : CallBridge
  pub call_id : String
  pub goal : Option String
  pub user_leg_sid : Option String
  pub finished : Bool

-- A value of `call_meta`.
pub record Meta : Type 0 where
  pub business_number : String
  pub redials : ℕ

-- A request to Twilio.
pub data Request : Type 0 where
  dialed : String → String → String → Request  -- `place_outbound_call`: number, URL, group
  rang : String → String → String → Request  -- `ring_user`
  texted : String → String → Request
  hung_up : String → Request

-- `app.state`
pub record App : Type 0 where
  pub has_twilio : Bool
  pub public_base_url : String
  pub bridges : Dict ℕ
  pub sessions : Dict ℕ
  pub pending_goals : Dict (Option String)
  pub user_legs : Dict String
  pub user_numbers : Dict String
  pub call_meta : Dict Meta
  pub objects : ℕ → Call
  pub next_object : ℕ
  pub requests : List Request

-- An object is changed in place.
abbrev pub put : ℕ → Call → (ℕ → Call) → ℕ → Call
put i c heap j = if j == i then c else heap j

abbrev pub request : Request → App → App
request r a = record a { requests = r ∷ a.requests }

abbrev pub usable_sid : String → Bool
usable_sid sid = not (str_eq sid "" || str_eq sid "unknown")

abbrev pub hang_up_sid : Option String → App → App
hang_up_sid none a = a
hang_up_sid (some sid) a = if a.has_twilio && usable_sid sid then request (hung_up sid) a else a

-- `_hang_up`
unfoldable pub hang_up : Option String → App → App
hang_up sid a = hang_up_sid sid a

abbrev pub text_number : Option String → String → App → App
text_number none body a = a
text_number (some number) body a =
    if a.has_twilio && not (str_eq number "") then request (texted number body) a else a

-- `_sms`
unfoldable pub sms : String → String → App → App
sms group body a = text_number (lookup group a.user_numbers) body a

-- `_clear_context`
unfoldable pub clear_context : String → App → App
clear_context group a = record a {
  pending_goals = erase group a.pending_goals;
  user_legs = erase group a.user_legs;
  user_numbers = erase group a.user_numbers;
  call_meta = erase group a.call_meta;
}

abbrev pub sms_reason : Option String → String → App → App
sms_reason none group a = a
sms_reason (some reason) group a = sms group (fallback_message reason) a

-- `bridge.close()`, on an object.
unfoldable pub close_object : ℕ → App → App
close_object i a =
    let c = a.objects i in
    record a { objects = put i (record c { bridge = Bridge.close c.bridge }) a.objects }

-- `_teardown_group` where the group has a bridge, up to the context.
unfoldable pub end_bridge : Option String → Bool → String → ℕ → App → App
unfolding sms
end_bridge reason hang group i a =
    let c = a.objects i in
    let b = record a { bridges = erase group a.bridges; sessions = erase c.call_id a.sessions } in
    let d = sms_reason reason group b in
    let e = (if hang then hang_up c.user_leg_sid (hang_up (some c.call_id) d) else d) in
    close_object i e

abbrev pub end_found : Option ℕ → Option String → Bool → String → App → App
end_found none reason hang group a = a
end_found (some i) reason hang group a = end_bridge reason hang group i a

-- `_teardown_group`
unfoldable pub teardown_group : Option String → Bool → String → App → App
unfolding end_bridge
teardown_group reason hang group a =
    clear_context group (end_found (lookup group a.bridges) reason hang group a)

-- `_RECONNECT_GRACE_S` and `_MAX_REDIALS`
abbrev pub reconnect_grace : ℕ
reconnect_grace = 20 * 8000

abbrev pub max_redials : ℕ
max_redials = 2

abbrev pub over_grace : Option ℕ → ℕ → Bool
over_grace none now = false
over_grace (some since) now = ltb (since + reconnect_grace) now

abbrev pub is_stale : ℕ → CallBridge → Bool
is_stale now b = b.reconnecting && over_grace b.reconnect_since now

-- The loop of `reap_stale_bridges`, with the number that it reaped.
unfoldable pub reap_each : List (String × ℕ) → ℕ → App → ℕ × App
reap_each [] now a = (0, a)
reap_each ((group, i) ∷ rest) now a =
    let (n, b) = reap_each rest now (teardown_group (some "dropped") true group a) in
    let (m, c) = reap_each rest now a in
    if is_stale now (a.objects i).bridge then (n + 1, b) else (m, c)

-- `reap_stale_bridges`
unfoldable pub reap_stale_bridges : ℕ → App → ℕ × App
unfolding reap_each
reap_stale_bridges now a = reap_each a.bridges now a

abbrev pub voice_url : String → String → String
voice_url base group = str_append base (str_append "/twiml/voice?group=" group)

abbrev pub redial_meta : Option Meta → Bool → String → App → Bool × App
redial_meta none refused group a = (false, a)
redial_meta (some meta) refused group a =
    if not a.has_twilio || (str_eq a.public_base_url "" || leb max_redials meta.redials)
    then (false, a)
    else (let b = record a {
      call_meta = insert group (record meta { redials = meta.redials + 1 }) a.call_meta;
    } in
        (
          not refused,
          request (dialed meta.business_number (voice_url a.public_base_url group) group) b,
        ))

-- `_redial_agent_leg`; `refused` says whether Twilio raises on the new call.
unfoldable pub redial_agent_leg : Bool → String → App → Bool × App
redial_agent_leg refused group a = redial_meta (lookup group a.call_meta) refused group a

abbrev pub is_object : Option ℕ → ℕ → Bool
is_object none i = false
is_object (some j) i = j == i

-- The object leaves the dictionaries, and the context of its group stays.
unfoldable pub drop_object : String → ℕ → App → App
drop_object group i a =
    let b =
      (if is_object (lookup group a.bridges) i
        then record a { bridges = erase group a.bridges }
        else a) in
    close_object i (record b { sessions = erase (a.objects i).call_id b.sessions })

-- The end of `_finish_agent_leg`, of an object that is not reconnecting.
unfoldable pub end_agent_leg : Bool → Bool → String → ℕ → App → App
unfolding redial_agent_leg drop_object
end_agent_leg saw_stop refused group i a =
    let dropped = not saw_stop && not (a.objects i).finished in
    let (redialed, b) = redial_agent_leg refused group a in
    if dropped
    then if redialed then drop_object group i b else teardown_group (some "dropped") true group b
    else teardown_group none false group a

-- `_finish_agent_leg`, of a socket that had bound an agent leg to an object, or none. The
-- recorder is left out.
unfoldable pub finish_agent_leg : Bool → Bool → String → Option ℕ → App → App
unfolding end_agent_leg
finish_agent_leg saw_stop refused group none a = a
finish_agent_leg saw_stop refused group (some i) a =
    if (a.objects i).bridge.reconnecting then a else end_agent_leg saw_stop refused group i a

-- The `start` of an agent leg in `media_stream`, on a group with a bridge.
unfoldable pub reconnect : String → ℕ → App → App
reconnect stream_sid i a =
    let c = a.objects i in
    record a {
      objects =
          put i
            (record c {
              bridge = record (bind_agent stream_sid true c.bridge) {
                reconnecting = false;
                reconnect_since = none;
              };
            })
            a.objects;
    }

abbrev pub join_goal : Option (Option String) → Option String
join_goal none = none
join_goal (some goal) = goal

-- The `start` of an agent leg in `media_stream`, on a group with no bridge.
unfoldable pub connect : String → String → String → App → App
unfolding new_bridge
connect group call_id stream_sid a =
    let c : Call = record {
      bridge = bind_agent stream_sid true (new_bridge group);
      call_id = call_id;
      goal = join_goal (lookup group a.pending_goals);
      user_leg_sid = lookup group a.user_legs;
      finished = false;
    } in
    record a {
      bridges = insert group a.next_object a.bridges;
      sessions = insert call_id a.next_object a.sessions;
      objects = put a.next_object c a.objects;
      next_object = a.next_object + 1;
    }

abbrev pub start_found : Option ℕ → String → String → String → App → ℕ × App
start_found (some i) group call_id stream_sid a = (i, reconnect stream_sid i a)
start_found none group call_id stream_sid a = (a.next_object, connect group call_id stream_sid a)

-- The `start` of an agent leg, with the object that its socket holds from then on.
unfoldable pub start_agent : String → String → String → App → ℕ × App
start_agent group call_id stream_sid a =
    start_found (lookup group a.bridges) group call_id stream_sid a
