-- ===== src/Media/Examples.antt =====
-- Runs of the calls of a process, as in tests/test_media.py.
use dial_pass.Prelude.{
  ℕ, ◌+◌, String, ◌≤◌, ◌≡◌, ◌↔◌, arith, refl, true, false, none, some, List, [], ◌∷◌, if◌then◌else◌,
  ◌==◌,
}
use dial_pass.Prelude.Dict.{lookup}
use dial_pass.Bridge.{bind_user, new_bridge, user_left, begin_handoff}
use dial_pass.Media.{
  redial_agent_leg, Call, App, teardown_group, finish_agent_leg, start_agent, reap_stale_bridges,
}
use dial_pass.Media.Closing.{IsForgotten}
use dial_pass.Media.Teardown.{TornDown, teardown_group-TornDown, teardown_idempotent}
use dial_pass.Media.Redial.{Happening, agent_started, agent_ended, swept, dials, redials_left}
use dial_pass.Media.Socket.{
  Start, Turn, socket, created, happening, start, disconnected, Socket, accepted, ended, serve,
}
use dial_pass.Media.Legs.{CallRequest}
use dial_pass.Media.Sockets.{allowed, dials_bounded}
use dial_pass.Media.Waiting.{reads, pauses, waits, user_leg_gives_up}
use dial_pass.Media.Reap.{IsStuck, reap_leaves_fresh}
use dial_pass.Media.Drops.{late_stop_ends_call}
use dial_pass.Media.Lost.{redialed_call_has_no_user}

abbrev first_call : Call
first_call = record {
  bridge = new_bridge "group";
  call_id = "CA1";
  goal = none;
  user_leg_sid = some "CA2";
  finished = false;
}

-- One call, of the group "group", on object 0.
abbrev calling : App
calling = record {
  has_twilio = true;
  public_base_url = "https://dialpass";
  bridges = ("group", 0) ∷ [];
  sessions = ("CA1", 0) ∷ [];
  pending_goals = ("group", some "billing") ∷ [];
  user_legs = ("group", "CA2") ∷ [];
  user_numbers = ("group", "+15550001") ∷ [];
  call_meta = ("group", record { business_number = "+15550002"; redials = 0 }) ∷ [];
  objects = λ i. first_call;
  next_object = 1;
  requests = [];
}

-- The stream drops, comes back on a new call, and drops again, three times.
abbrev drops : List Happening
drops =
    agent_ended false false "group" (some 0)
    ∷ agent_started "group" "CA3" "MZ3"
    ∷ agent_ended false false "group" (some 1)
    ∷ agent_started "group" "CA4" "MZ4"
    ∷ agent_ended false false "group" (some 2)
    ∷ []

teardown_group-TornDown_example :
    TornDown "group" calling (teardown_group (some "dropped") true "group" calling)
teardown_group-TornDown_example = teardown_group-TornDown (some "dropped") true "group" calling

teardown_idempotent_example :
    teardown_group none false "group" (teardown_group (some "dropped") true "group" calling)
    ≡ teardown_group (some "dropped") true "group" calling
teardown_idempotent_example = teardown_idempotent (some "dropped") none true false "group" calling

abbrev waiting : App
waiting = record calling {
  bridges = ("old", 1) ∷ ("group", 0) ∷ [];
  objects = λ i. record first_call {
    bridge = record (new_bridge "group") {
      reconnecting = if i == 1 then true else false;
      reconnect_since = some 0;
    };
  };
}

reap_leaves_fresh_example :
    (lookup "group" (reap_stale_bridges 200000 waiting).1.bridges ≡ some 0)
    ↔ ((lookup "group" waiting.bridges ≡ some 0) × ¬ IsStuck 200000 (waiting.objects 0).bridge)
unfolding lookup
reap_leaves_fresh_example = reap_leaves_fresh 200000 waiting "group" 0 (refl, (refl, tt))

-- The call with its user on the line.
abbrev attended : App
attended = record calling {
  objects = λ i. record first_call { bridge = bind_user "MZu" (new_bridge "group") };
}

redialed_call_has_no_user_example :
    let b = finish_agent_leg false false "group" (some 0) attended in
    let (j, c) = start_agent "group" "CA3" "MZ3" b in
    (lookup "group" c.bridges ≡ some j)
    × ((begin_handoff true (c.objects j).bridge).0 ≡ user_left)
    × ((c.objects 0).bridge.user_stream_sid ≡ some "MZu")
unfolding lookup new_bridge bind_user redial_agent_leg
redialed_call_has_no_user_example =
    redialed_call_has_no_user "group" "CA3" "MZ3" "MZu" true false 0 attended refl refl refl refl
      refl (omega arith)

late_stop_ends_call_example :
    let b = (start_agent "group" "CA1" "MZ2" calling).1 in
    ((start_agent "group" "CA1" "MZ2" calling).0 ≡ 0)
    × IsForgotten "group" (finish_agent_leg true false "group" (some 0) b)
unfolding lookup
late_stop_ends_call_example = late_stop_ends_call "group" "CA1" "MZ2" false 0 calling refl

abbrev agent_start : String → Start
agent_start sid = record {
  group_param = some "group";
  role_param = none;
  call_sid = some sid;
  stream_sid = some "MZ";
}

abbrev all_accepted : ℕ → Socket
all_accepted n = accepted

abbrev new_call : CallRequest
new_call = record { business_number = "+15550002"; user_number = "+15550001"; goal = none }

-- Two sockets of the agent leg, one after the other, both of which lose their connection.
abbrev two_sockets : List Turn
two_sockets =
    socket 1 false (start (agent_start "CA1"))
    ∷ socket 1 false disconnected
    ∷ socket 2 false (start (agent_start "CA3"))
    ∷ happening (swept 9)
    ∷ created new_call "group" true none
    ∷ socket 2 false disconnected
    ∷ []

dials_bounded_example :
    let b = (serve two_sockets (all_accepted, calling)).1 in
    (dials "group" b.requests
      ≤ dials "group" calling.requests + redials_left "group" calling + allowed "group" two_sockets)
    × (redials_left "group" calling ≤ 2)
dials_bounded_example = dials_bounded "group" two_sockets all_accepted calling

abbrev user_start : Start
user_start = record {
  group_param = some "nobody";
  role_param = some "user";
  call_sid = none;
  stream_sid = some "MZuser";
}

user_leg_gives_up_example :
    let s : Socket = record accepted { group = "nobody"; user_stream = "MZuser" } in
    ((k n : ℕ)
      → k + n ≡ 99
      → reads true (start user_start ∷ pauses k) (accepted, calling) ≡ (waits n s, calling))
    × (reads true (start user_start ∷ pauses 100) (accepted, calling)
        ≡ (record s { mode = ended }, calling))
unfolding lookup
user_leg_gives_up_example = user_leg_gives_up true user_start calling refl refl
