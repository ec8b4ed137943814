-- ===== src/Media/Drops.antt =====
-- How the end of a socket of media.py leaves the call.
use dial_pass.Prelude.{
  ℕ, ◌≡◌, ◌≢◌, refl, ap, ◌∙◌, String, Bool, true, false, not, ◌&&◌, Option, none, some, eq_iff,
  if_elim, arith,
}
use dial_pass.Prelude.Dict.{lookup, erase, lookup-erase}
use mathlib.Core.Path.{subst}
use dial_pass.Media.{
  Call, App, Meta, put, redial_meta, redial_agent_leg, drop_object, close_object, end_agent_leg,
  finish_agent_leg, reconnect, start_agent, is_object,
}
use dial_pass.Media.Legs.{user_gone, session_failed}
use dial_pass.Media.Closing.{IsForgotten, put_same}
use dial_pass.Media.Teardown.{teardown_group-TornDown}

-- The object is not the group's bridge, and the context of the group is the one it had, but for the
-- count of redials.
pub record IsRedialed (g : String) (i : ℕ) (a b : App) : Type 0 where
  pub replaced : lookup g b.bridges ≢ some i
  pub meta : (refused : Bool) → b.call_meta ≡ (redial_agent_leg refused g a).1.call_meta
  pub numbers : b.user_numbers ≡ a.user_numbers
  pub goals : b.pending_goals ≡ a.pending_goals
  pub legs : b.user_legs ≡ a.user_legs

-- A redial changes only the count and the requests.
record Counts (g : String) (a b : App) : Type 0 where
  bridges : b.bridges ≡ a.bridges
  meta : (refused : Bool) → b.call_meta ≡ (redial_agent_leg refused g a).1.call_meta
  numbers : b.user_numbers ≡ a.user_numbers
  goals : b.pending_goals ≡ a.pending_goals
  legs : b.user_legs ≡ a.user_legs

redial_meta-Counts :
    (o : Option Meta) (refused : Bool) (g : String) (a : App)
    → let b = (redial_meta o refused g a).1 in
      (b.bridges ≡ a.bridges)
      × ((r : Bool) → b.call_meta ≡ (redial_meta o r g a).1.call_meta)
      × (b.user_numbers ≡ a.user_numbers)
      × (b.pending_goals ≡ a.pending_goals)
      × (b.user_legs ≡ a.user_legs)
redial_meta-Counts none refused g a = ground arith
redial_meta-Counts (some m) refused g a = ground arith

redial-Counts :
    (refused : Bool) (g : String) (a : App) → Counts g a (redial_agent_leg refused g a).1
unfolding redial_agent_leg
redial-Counts refused g a =
    let (bridges, meta, numbers, goals, legs) =
      redial_meta-Counts (lookup g a.call_meta) refused g a in
    record { bridges = bridges; meta = meta; numbers = numbers; goals = goals; legs = legs }

gone : (o : Option ℕ) (i : ℕ) → is_object o i ≡ false → o ≢ some i
gone none i e f = cc f
gone (some j) i e f = ground arith

drop_object-IsRedialed :
    (g : String) (i : ℕ) (a b : App) → Counts g a b → IsRedialed g i a (drop_object g i b)
unfolding drop_object close_object
drop_object-IsRedialed g i a b c =
    let out = lookup-erase g g b.bridges in
    let self = eq_iff g g in
    if_elim
      (λ d.
        IsRedialed g i a
          (close_object i (record d { sessions = erase (b.objects i).call_id d.sessions })))
      (is_object (lookup g b.bridges) i)
      (λ _. record {
        replaced = ground (arith, out, self);
        meta = c.meta;
        numbers = c.numbers;
        goals = c.goals;
        legs = c.legs;
      })
      (λ other. record {
        replaced = gone (lookup g b.bridges) i other;
        meta = c.meta;
        numbers = c.numbers;
        goals = c.goals;
        legs = c.legs;
      })

abbrev pub was_dropped : Bool → ℕ → App → Bool
was_dropped saw_stop i a = not saw_stop && not (a.objects i).finished

module _ (saw_stop refused : Bool) (g : String) (i : ℕ) (a : App) where
  dialed_again_end :
      was_dropped saw_stop i a ≡ true
      → (redial_agent_leg refused g a).0 ≡ true
      → IsRedialed g i a (end_agent_leg saw_stop refused g i a)
  unfolding end_agent_leg
  dialed_again_end d y =
      rw (d, y)
        (drop_object-IsRedialed g i a (redial_agent_leg refused g a).1 (redial-Counts refused g a))

  torn_end :
      (was_dropped saw_stop i a && (redial_agent_leg refused g a).0 ≡ false)
      → IsForgotten g (end_agent_leg saw_stop refused g i a)
  unfolding end_agent_leg
  torn_end stays =
      let r : App = (redial_agent_leg refused g a).1 in
      if_elim (IsForgotten g) (was_dropped saw_stop i a)
        (λ d.
          if_elim (IsForgotten g) (redial_agent_leg refused g a).0 (λ y. cc (d, y, stays))
            (λ _. (teardown_group-TornDown (some "dropped") true g r).forgotten))
        (λ _. (teardown_group-TornDown none false g a).forgotten)

and_true : (x y : Bool) → (x && y) ≡ true → (x ≡ true) × (y ≡ true)
and_true true true e = (refl, refl)
and_true true false e = cc e
and_true false y e = cc e

-- How the end of an agent leg's socket leaves the call. With a keypress under way all stays as it
-- is. Else, where the stream dropped and was dialed again, the object is not the group's bridge and
-- the context of the group stays, but for the count of redials; and in every other case the bridge
-- and the context of the group are gone.
pub finish_agent_leg_cases :
    (saw_stop refused : Bool) (g : String) (i : ℕ) (a : App)
    → let b = finish_agent_leg saw_stop refused g (some i) a in
      let redialed = was_dropped saw_stop i a && (redial_agent_leg refused g a).0 in
      ((a.objects i).bridge.reconnecting ≡ true → b ≡ a)
      × ((a.objects i).bridge.reconnecting ≡ false → redialed ≡ true → IsRedialed g i a b)
      × ((a.objects i).bridge.reconnecting ≡ false → redialed ≡ false → IsForgotten g b)
unfolding finish_agent_leg
finish_agent_leg_cases saw_stop refused g i a = (
  λ e. rw e refl,
  λ e yes.
      let (d, y) = and_true (was_dropped saw_stop i a) (redial_agent_leg refused g a).0 yes in
      rw e (dialed_again_end saw_stop refused g i a d y),
  λ e stays. rw e (torn_end saw_stop refused g i a stays),
)

reconnect-connected :
    (stream_sid : String) (i : ℕ) (a : App)
    → ((reconnect stream_sid i a).objects i).bridge.reconnecting ≡ false
unfolding reconnect
reconnect-connected stream_sid i a = ground arith

-- A `stop` of the stream that a keypress has taken away, if it is read after the group has connected
-- again, ends the call that goes on on the new stream: its bridge and its context are gone.
pub late_stop_ends_call :
    (g call_id stream_sid : String) (refused : Bool) (i : ℕ) (a : App)
    → lookup g a.bridges ≡ some i
    → let b = (start_agent g call_id stream_sid a).1 in
      ((start_agent g call_id stream_sid a).0 ≡ i)
      × IsForgotten g (finish_agent_leg true refused g (some i) b)
unfolding start_agent
late_stop_ends_call g call_id stream_sid refused i a found = rw found (
  refl,
  (finish_agent_leg_cases true refused g i (reconnect stream_sid i a)).2
      (reconnect-connected stream_sid i a) refl,
)

failed_session :
    (reason : String) (i : ℕ) (a : App)
    → let b = session_failed reason i a in
      ((b.objects i).finished ≡ true) × IsForgotten (a.objects i).bridge.group_id b
unfolding session_failed
failed_session reason i a =
    let c : Call = a.objects i in
    let d : Call = record c { finished = true } in
    let t =
      teardown_group-TornDown (some reason) true c.bridge.group_id
        (record a { objects = put i d a.objects }) in
    (t.finished i ∙ ap (λ k. k.finished) (put_same i d a.objects), t.forgotten)

-- A user who hangs up before the relay is open, on a session that is not finished, ends the call: the
-- session is finished, and the bridge and the context of its group are gone. Otherwise the user's
-- stream is unbound, no request is sent, and the group keeps its bridge.
pub user_gone_cases :
    (i : ℕ) (a : App)
    → let c = a.objects i in
      let b = user_gone i a in
      let early = not c.bridge.relay_open && not c.finished in
      (early ≡ true → ((b.objects i).finished ≡ true) × IsForgotten c.bridge.group_id b)
      × (early ≡ false
          → (b.bridges ≡ a.bridges)
            × (b.requests ≡ a.requests)
            × ((b.objects i).finished ≡ c.finished)
            × ((b.objects i).bridge.user_stream_sid ≡ none))
unfolding user_gone
user_gone_cases i a =
    let c : Call = a.objects i in
    let d : Call = record c { bridge = record (c.bridge) { user_stream_sid = none } } in
    let b : App = record a { objects = put i d a.objects } in
    let here = put_same i d a.objects in
    let (over, forgotten) = failed_session "user_left" i b in
    (
      λ early. rw early (
        over,
        subst (λ g. IsForgotten g (session_failed "user_left" i b))
            (ap (λ k. k.bridge.group_id) here) forgotten,
      ),
      λ late.
          rw late (refl, refl, ap (λ k. k.finished) here, ap (λ k. k.bridge.user_stream_sid) here),
    )
