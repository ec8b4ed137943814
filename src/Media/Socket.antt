-- ===== src/Media/Socket.antt =====
-- The handler of a socket in src/dialpass/api/media.py, `media_stream` with `_serve_user_leg`, by
-- what it reads. The recorder is left out; the writing tasks, which ship what `drain_agent`
-- and `drain_user` give, stand in Writing.
use dial_pass.Prelude.{
  ℕ, zero, suc, String, Bool, true, false, Option, none, some, List, [], ◌∷◌, ◌==◌, str_eq,
  if◌then◌else◌,
}
use dial_pass.Prelude.Dict.{lookup}
use dial_pass.Prelude.Text.{is_empty}
use dial_pass.Bridge.{Bytes, CallBridge, on_agent_audio, on_user_audio}
use dial_pass.Media.{App, put, start_agent, finish_agent_leg}
use dial_pass.Media.Legs.{attach_found, user_gone, CallRequest, create_call}
use dial_pass.Media.Redial.{Happening, happen}

-- What the `start` event of a stream tells.
pub record Start : Type 0 where
  pub group_param : Option String
  pub role_param : Option String
  pub call_sid : Option String
  pub stream_sid : Option String

-- What the handler meets next: a message, the end of the connection, or the end of a pause of
-- `_USER_ATTACH_INTERVAL`.
pub data Read : Type 0 where
  start : Start → Read
  media : Bytes → Read
  stop other disconnected waited : Read

pub data Mode : Type 0 where
  reading : Mode
  waiting : ℕ → Mode  -- for the bridge of a user leg, with the tries left
  serving : ℕ → Mode  -- the user leg of an object
  ended : Mode

-- The local variables of the handler; `held` is its `bridge`.
pub record Socket : Type 0 where
  pub mode : Mode
  pub held : Option ℕ
  pub group : String
  pub user_stream : String

abbrev pub accepted : Socket
accepted = record { mode = reading; held = none; group = "unknown"; user_stream = "" }

-- `_USER_ATTACH_TRIES`
abbrev pub attach_tries : ℕ
attach_tries = 100

-- `a or b`
abbrev pub text_or : Option String → String → String
text_or none b = b
text_or (some a) b = if is_empty a then b else a

abbrev pub group_of : Start → String
group_of m = text_or m.group_param (text_or m.stream_sid "unknown")

abbrev pub is_user : Option String → Bool
is_user none = false
is_user (some role) = str_eq role "user"

-- A change of the bridge of an object.
abbrev pub hear : (CallBridge → CallBridge) → ℕ → App → App
hear change i a =
    let c = a.objects i in
    record a { objects = put i (record c { bridge = change c.bridge }) a.objects }

abbrev pub hear_held : Option ℕ → Bytes → App → App
hear_held none ulaw a = a
hear_held (some i) ulaw a = hear (on_agent_audio ulaw) i a

-- The `finally` of `media_stream`; `refused` says whether Twilio raises on a redial.
unfoldable pub finish : Bool → Bool → Socket → App → Socket × App
unfolding finish_agent_leg
finish saw_stop refused s a =
    (record s { mode = ended }, finish_agent_leg saw_stop refused s.group s.held a)

abbrev pub attach_or : Option ℕ → Socket → App → Socket × App → Socket × App
attach_or none s a missing = missing
attach_or (some i) s a missing =
    (record s { mode = serving i }, (attach_found (some i) s.user_stream a).1)

-- The loop of `_serve_user_leg` that looks for the bridge, up to its next pause.
unfoldable pub try_attach : ℕ → Bool → Socket → App → Socket × App
unfolding finish
try_attach zero refused s a = finish false refused s a
try_attach (suc n) refused s a =
    attach_or (lookup s.group a.bridges) s a (record s { mode = waiting n }, a)

-- The end of `_serve_user_leg`, and with it of the handler.
unfoldable pub end_user : Bool → ℕ → Socket → App → Socket × App
unfolding finish
end_user refused i s a = finish false refused s (user_gone i a)

unfoldable pub start_leg : Bool → Start → Socket → App → Socket × App
unfolding try_attach start_agent
start_leg refused m s a =
    let group = group_of m in
    if is_user m.role_param
    then try_attach attach_tries refused
        (record s { group = group; user_stream = text_or m.stream_sid "" }) a
    else (let (i, b) =
          start_agent group (text_or m.call_sid "unknown") (text_or m.stream_sid "") a in
        (record s { group = group; held = some i }, b))

unfoldable pub step_in : Mode → Bool → Read → Socket → App → Socket × App
unfolding start_leg end_user
step_in reading refused (start m) s a = start_leg refused m s a
step_in reading refused (media ulaw) s a = (s, hear_held s.held ulaw a)
step_in reading refused stop s a = finish true refused s a
step_in reading refused disconnected s a = finish false refused s a
step_in (waiting n) refused waited s a = try_attach n refused s a
step_in (serving i) refused (media ulaw) s a = (s, hear (on_user_audio ulaw) i a)
step_in (serving i) refused stop s a = end_user refused i s a
step_in (serving i) refused disconnected s a = end_user refused i s a
step_in mode refused read s a = (s, a)

-- One step of a handler. In a mode it meets only what it waits for; anything else does nothing.
unfoldable pub step : Bool → Read → Socket → App → Socket × App
unfolding step_in
step refused read s a = step_in s.mode refused read s a

-- A handler that goes on, a request for a call, or something else that happens in the process.
pub data Turn : Type 0 where
  created : CallRequest → String → Bool → Option String → Turn
  socket : ℕ → Bool → Read → Turn
  happening : Happening → Turn

abbrev pub put_socket : ℕ → Socket → (ℕ → Socket) → ℕ → Socket
put_socket n s sockets m = if m == n then s else sockets m

-- The handlers of the event loop interleave at what they wait for.
unfoldable pub turn : Turn → (ℕ → Socket) × App → (ℕ → Socket) × App
unfolding step happen
turn (socket n refused read) (sockets, a) =
    let (s, b) = step refused read (sockets n) a in (put_socket n s sockets, b)
turn (created req group placed user_leg) (sockets, a) =
    (sockets, (create_call req group placed user_leg a).1)
turn (happening e) (sockets, a) = (sockets, happen e a)

unfoldable pub serve : List Turn → (ℕ → Socket) × App → (ℕ → Socket) × App
serve [] world = world
serve (t ∷ ts) world = serve ts (turn t world)
