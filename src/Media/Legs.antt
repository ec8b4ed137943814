-- ===== src/Media/Legs.antt =====
-- The legs of a call in src/dialpass/api/media.py, and the creation of a call in
-- src/dialpass/api/calls.py.
use dial_pass.Prelude.{
  ℕ, String, Bool, true, false, not, ◌&&◌, ◌||◌, Option, none, some, str_eq, str_append,
  if◌then◌else◌,
}
use dial_pass.Prelude.Dict.{lookup, insert}
use dial_pass.Bridge.{bind_user, press_dtmf}
use dial_pass.Media.{App, dialed, rang, request, put, teardown_group, voice_url}

-- The `on_teardown` hook, run where the session fails: `_fail` has marked it finished by then.
unfoldable pub session_failed : String → ℕ → App → App
session_failed reason i a =
    let c = a.objects i in
    teardown_group (some reason) true c.bridge.group_id
      (record a { objects = put i (record c { finished = true }) a.objects })

abbrev pub attach_found : Option ℕ → String → App → Option ℕ × App
attach_found none stream_sid a = (none, a)
attach_found (some i) stream_sid a =
    let c = a.objects i in
    (
      some i,
      record a { objects = put i (record c { bridge = bind_user stream_sid c.bridge }) a.objects },
    )

-- The start of `_serve_user_leg`, once the wait for the bridge is over.
unfoldable pub attach_user : String → String → App → Option ℕ × App
attach_user group stream_sid a = attach_found (lookup group a.bridges) stream_sid a

-- The end of `_serve_user_leg`, of the object that it had bound.
unfoldable pub user_gone : ℕ → App → App
unfolding session_failed
user_gone i a =
    let c = a.objects i in
    let b = record a {
      objects =
          put i (record c { bridge = record (c.bridge) { user_stream_sid = none } }) a.objects;
    } in
    if not c.bridge.relay_open && not c.finished then session_failed "user_left" i b else b

-- A keypress on the object, up to the thread that asks Twilio for it.
unfoldable pub press : String → ℕ → ℕ → App → App
press digits now i a =
    let c = a.objects i in
    record a { objects = put i (record c { bridge = press_dtmf digits now c.bridge }) a.objects }

-- `press` of `_wire_dtmf`, where Twilio raised.
unfoldable pub press_refused : ℕ → App → App
press_refused i a =
    let c = a.objects i in
    record a {
      objects = put i (record c { bridge = record (c.bridge) { reconnecting = false } }) a.objects;
    }

-- The call that the form asks for.
pub record CallRequest : Type 0 where
  pub business_number : String
  pub user_number : String
  pub goal : Option String

abbrev pub join_url : String → String → String
join_url base group = str_append base (str_append "/twiml/join?group=" group)

abbrev pub ring_result : Option String → String → String → App → App
ring_result none group number a = a
ring_result (some sid) group number a = record a {
  user_legs = insert group sid a.user_legs;
  user_numbers = insert group number a.user_numbers;
}

-- `create_call`, of a fresh group: `false` is the answer 501. The agent leg is `placed`, or Twilio
-- raises and the request fails; `user_leg` is the SID of the user's leg, or none where Twilio raises.
unfoldable pub create_call : CallRequest → String → Bool → Option String → App → Bool × App
create_call req group placed user_leg a =
    if not a.has_twilio || str_eq a.public_base_url ""
    then (false, a)
    else let b = request (dialed req.business_number (voice_url a.public_base_url group) group) a in
      let c = record b {
        pending_goals = insert group req.goal b.pending_goals;
        call_meta =
            insert group (record { business_number = req.business_number; redials = 0 })
              b.call_meta;
      } in
      let d = request (rang req.user_number (join_url a.public_base_url group) group) c in
      if placed then (true, ring_result user_leg group req.user_number d) else (false, b)
