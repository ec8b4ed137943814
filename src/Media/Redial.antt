-- ===== src/Media/Redial.antt =====
-- How often media.py dials a business again.
use dial_pass.Prelude.{
  ℕ, ◌+◌, ◌-◌, ◌≤◌, ◌≡◌, refl, String, Bool, true, false, Option, none, some, List, [], ◌∷◌, str_eq,
  eq_iff, if◌then◌else◌, arith, Option-cases, inl, inr,
}
use dial_pass.Prelude.Dict.{lookup, erase, lookup-insert, lookup-erase}
use dial_pass.Media.{
  Call, App, Meta, Request, dialed, put, teardown_group, hang_up, sms, sms_reason, clear_context,
  end_bridge, close_object, max_redials, redial_meta, redial_agent_leg, drop_object, end_agent_leg,
  finish_agent_leg, reconnect, connect, start_agent, start_found, reap_each, reap_stale_bridges,
}
use dial_pass.Media.Legs.{
  attach_user, attach_found, user_gone, session_failed, press, press_refused,
}

-- What happens at the sockets, the sessions and the sweeper.
pub data Happening : Type 0 where
  agent_started : String → String → String → Happening
  agent_ended : Bool → Bool → String → Option ℕ → Happening
  user_started : String → String → Happening
  user_ended : ℕ → Happening
  failed : String → ℕ → Happening
  pressed : String → ℕ → ℕ → Happening
  press_failed : ℕ → Happening
  swept : ℕ → Happening

unfoldable pub happen : Happening → App → App
unfolding reap_stale_bridges start_agent attach_user
happen (agent_started group call_id stream_sid) a = (start_agent group call_id stream_sid a).1
happen (agent_ended saw_stop refused group i) a = finish_agent_leg saw_stop refused group i a
happen (user_started group stream_sid) a = (attach_user group stream_sid a).1
happen (user_ended i) a = user_gone i a
happen (failed reason i) a = session_failed reason i a
happen (pressed digits now i) a = press digits now i a
happen (press_failed i) a = press_refused i a
happen (swept now) a = (reap_stale_bridges now a).1

unfoldable pub run : List Happening → App → App
unfolding happen
run [] a = a
run (e ∷ es) a = run es (happen e a)

-- How often the business of a group was dialed.
abbrev pub dial : String → Request → ℕ
dial group (dialed number url g) = if str_eq g group then 1 else 0
dial group _ = 0

abbrev pub dials : String → List Request → ℕ
dials group [] = 0
dials group (r ∷ rs) = dial group r + dials group rs

-- The redials that a group has left: of `_MAX_REDIALS`, or none without its `call_meta`.
abbrev pub meta_left : Option Meta → ℕ
meta_left none = 0
meta_left (some m) = max_redials - m.redials

abbrev pub redials_left : String → App → ℕ
redials_left group a = meta_left (lookup group a.call_meta)

abbrev pub Spends : String → App → App → Type 0
Spends g a b = dials g b.requests + redials_left g b ≤ dials g a.requests + redials_left g a

-- Requests that dial nothing, and the dictionary of the redials left as it was.
abbrev pub Quiet : String → App → App → Type 0
Quiet g a b = (dials g b.requests ≡ dials g a.requests) × (b.call_meta ≡ a.call_meta)

hang_up-Quiet : (g : String) (sid : Option String) (a : App) → Quiet g a (hang_up sid a)
unfolding hang_up
hang_up-Quiet g none a = ground arith
hang_up-Quiet g (some sid) a = ground arith

sms_reason-Quiet :
    (g : String) (r : Option String) (h : String) (a : App) → Quiet g a (sms_reason r h a)
unfolding sms
sms_reason-Quiet g r h a = ground arith

end_bridge-Quiet :
    (g : String) (r : Option String) (hang : Bool) (h : String) (i : ℕ) (a : App)
    → Quiet g a (end_bridge r hang h i a)
unfolding end_bridge close_object
end_bridge-Quiet g r hang h i a =
    let c : Call = a.objects i in
    let b : App = record a { bridges = erase h a.bridges; sessions = erase c.call_id a.sessions } in
    let d : App = sms_reason r h b in
    ground (
      arith,
      sms_reason-Quiet g r h b,
      hang_up-Quiet g (some c.call_id) d,
      hang_up-Quiet g c.user_leg_sid (hang_up (some c.call_id) d),
    )

clear-Spends : (g h : String) (a : App) → Spends g a (clear_context h a)
unfolding clear_context
clear-Spends g h a = ground (arith, lookup-erase h g a.call_meta)

teardown-Spends :
    (g : String) (r : Option String) (hang : Bool) (h : String) (a : App)
    → Spends g a (teardown_group r hang h a)
unfolding teardown_group
teardown-Spends g r hang h a = elim (Option-cases (lookup h a.bridges)) [
  | inl missing ↦ rw missing (clear-Spends g h a)
  | inr (i, found) ↦ rw found (
      let b : App = end_bridge r hang h i a in
      let q = end_bridge-Quiet g r hang h i a in let s = clear-Spends g h b in ground (arith, q, s))
]

-- One redial takes one of those that the group has left.
redial_meta-Spends :
    (g : String) (o : Option Meta) (refused : Bool) (h : String) (a : App)
    → lookup h a.call_meta ≡ o
    → Spends g a (redial_meta o refused h a).1
redial_meta-Spends g none refused h a e = ground arith
redial_meta-Spends g (some m) refused h a e =
    let next : Meta = record m { redials = m.redials + 1 } in
    ground (arith, eq_iff h g, lookup-insert h g next a.call_meta)

redial-Spends :
    (g : String) (refused : Bool) (h : String) (a : App)
    → Spends g a (redial_agent_leg refused h a).1
unfolding redial_agent_leg
redial-Spends g refused h a = redial_meta-Spends g (lookup h a.call_meta) refused h a refl

drop-Quiet : (g h : String) (i : ℕ) (a : App) → Quiet g a (drop_object h i a)
unfolding drop_object close_object
drop-Quiet g h i a = ground arith

end_agent_leg-Spends :
    (g : String) (saw_stop refused : Bool) (h : String) (i : ℕ) (a : App)
    → Spends g a (end_agent_leg saw_stop refused h i a)
unfolding end_agent_leg
end_agent_leg-Spends g saw_stop refused h i a =
    let b : App = (redial_agent_leg refused h a).1 in
    ground (
      arith,
      redial-Spends g refused h a,
      drop-Quiet g h i b,
      teardown-Spends g (some "dropped") true h b,
      teardown-Spends g none false h a,
    )

pub finish_agent_leg-Spends :
    (g : String) (saw_stop refused : Bool) (h : String) (o : Option ℕ) (a : App)
    → Spends g a (finish_agent_leg saw_stop refused h o a)
unfolding finish_agent_leg
finish_agent_leg-Spends g saw_stop refused h none a = ground arith
finish_agent_leg-Spends g saw_stop refused h (some i) a =
    ground (arith, end_agent_leg-Spends g saw_stop refused h i a)

reap-Spends :
    (g : String) (l : List (String × ℕ)) (now : ℕ) (a : App) → Spends g a (reap_each l now a).1
unfolding reap_each
reap-Spends g [] now a = ground arith
reap-Spends g ((h, i) ∷ l) now a =
    let b : App = teardown_group (some "dropped") true h a in
    ground (
      arith,
      teardown-Spends g (some "dropped") true h a,
      reap-Spends g l now a,
      reap-Spends g l now b,
    )

pub start-Quiet :
    (g : String) (o : Option ℕ) (h call_id stream_sid : String) (a : App)
    → Quiet g a (start_found o h call_id stream_sid a).1
unfolding reconnect connect
start-Quiet g none h call_id stream_sid a = ground arith
start-Quiet g (some i) h call_id stream_sid a = ground arith

attach-Quiet :
    (g : String) (o : Option ℕ) (stream_sid : String) (a : App)
    → Quiet g a (attach_found o stream_sid a).1
attach-Quiet g none stream_sid a = ground arith
attach-Quiet g (some i) stream_sid a = ground arith

failed-Spends : (g reason : String) (i : ℕ) (a : App) → Spends g a (session_failed reason i a)
unfolding session_failed
failed-Spends g reason i a =
    let c : Call = a.objects i in
    teardown-Spends g (some reason) true c.bridge.group_id
      (record a { objects = put i (record c { finished = true }) a.objects })

pub user_gone-Spends : (g : String) (i : ℕ) (a : App) → Spends g a (user_gone i a)
unfolding user_gone
user_gone-Spends g i a =
    let c : Call = a.objects i in
    let b : App = record a {
      objects =
          put i (record c { bridge = record (c.bridge) { user_stream_sid = none } }) a.objects;
    } in
    ground (arith, failed-Spends g "user_left" i b)

pub happen-Spends : (g : String) (e : Happening) (a : App) → Spends g a (happen e a)
unfolding happen press press_refused
happen-Spends g (agent_started h call_id sid) a =
    ground (arith, start-Quiet g (lookup h a.bridges) h call_id sid a)
happen-Spends g (agent_ended saw_stop refused h o) a =
    finish_agent_leg-Spends g saw_stop refused h o a
happen-Spends g (user_started h sid) a = ground (arith, attach-Quiet g (lookup h a.bridges) sid a)
happen-Spends g (user_ended i) a = user_gone-Spends g i a
happen-Spends g (failed reason i) a = failed-Spends g reason i a
happen-Spends g (pressed digits now i) a = ground arith
happen-Spends g (press_failed i) a = ground arith
happen-Spends g (swept now) a = reap-Spends g a.bridges now a

run-Spends : (g : String) (es : List Happening) (a : App) → Spends g a (run es a)
unfolding run
run-Spends g [] a = omega arith
run-Spends g (e ∷ es) a = omega (arith, happen-Spends g e a, run-Spends g es (happen e a))

pub left_at_most : (o : Option Meta) → meta_left o ≤ 2
left_at_most none = omega arith
left_at_most (some m) = omega arith

-- Whatever happens at the sockets, the sessions and the sweeper, a group is dialed again no more
-- often than it has redials left: of two, those not yet taken, and none once its context is gone.
pub redial_bound :
    (g : String) (es : List Happening) (a : App)
    → (dials g (run es a).requests ≤ dials g a.requests + redials_left g a) × (redials_left g a ≤ 2)
redial_bound g es a = (omega (arith, run-Spends g es a), left_at_most (lookup g a.call_meta))
