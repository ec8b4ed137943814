-- ===== src/Media/Lost.antt =====
-- The user that a redial of media.py loses.
use dial_pass.Prelude.{
  ℕ, ◌<◌, ◌≡◌, refl, ap, ◌∙◌, String, Bool, true, false, Option, none, some, eq_iff, arith,
}
use dial_pass.Prelude.Dict.{lookup, lookup-insert, lookup-erase}
use dial_pass.Bridge
use dial_pass.Bridge.{user_left, begin_handoff, bind_agent, new_bridge}
use dial_pass.Media.{
  App, Meta, redial_meta, redial_agent_leg, drop_object, close_object, end_agent_leg,
  finish_agent_leg, connect, start_agent,
}
use dial_pass.Media.Drops.{was_dropped}

-- A group that connects where it has no bridge gets a new one, without a user leg; the objects before
-- it stay as they are.
connect-fresh :
    (g call_id stream_sid : String) (key : Bool) (a : App)
    → lookup g a.bridges ≡ none
    → let (j, b) = start_agent g call_id stream_sid a in
      (lookup g b.bridges ≡ some j)
      × ((begin_handoff key (b.objects j).bridge).0 ≡ user_left)
      × ((i : ℕ) → i < a.next_object → b.objects i ≡ a.objects i)
unfolding start_agent connect begin_handoff bind_agent new_bridge
connect-fresh g call_id stream_sid key a missing = rw missing (
  ground (arith, lookup-insert g g a.next_object a.bridges, eq_iff g g),
  ground arith,
  λ i lt. ground arith,
)

redial_meta-rest :
    (o : Option Meta) (refused : Bool) (g : String) (a : App)
    → let b = (redial_meta o refused g a).1 in
      (b.bridges ≡ a.bridges) × (b.next_object ≡ a.next_object) × (b.objects ≡ a.objects)
redial_meta-rest none refused g a = ground arith
redial_meta-rest (some m) refused g a = ground arith

drop_object-rest :
    (g : String) (i : ℕ) (a : App)
    → lookup g a.bridges ≡ some i
    → let b = drop_object g i a in
      (lookup g b.bridges ≡ none)
      × (b.next_object ≡ a.next_object)
      × ((b.objects i).bridge.user_stream_sid ≡ (a.objects i).bridge.user_stream_sid)
unfolding drop_object close_object Bridge.close
drop_object-rest g i a found = ground (arith, lookup-erase g g a.bridges, eq_iff g g)

-- A stream that dropped and was dialed again leaves its group without a bridge, and its object with the
-- user leg that it had.
redialed-end :
    (refused : Bool) (g : String) (i : ℕ) (a : App)
    → lookup g a.bridges ≡ some i
    → was_dropped false i a ≡ true
    → (a.objects i).bridge.reconnecting ≡ false
    → (redial_agent_leg refused g a).0 ≡ true
    → let b = finish_agent_leg false refused g (some i) a in
      (lookup g b.bridges ≡ none)
      × (b.next_object ≡ a.next_object)
      × ((b.objects i).bridge.user_stream_sid ≡ (a.objects i).bridge.user_stream_sid)
unfolding finish_agent_leg end_agent_leg redial_agent_leg
redialed-end refused g i a found dropped still placed =
    let r : App = (redial_agent_leg refused g a).1 in
    let (bridges, next, objects) = redial_meta-rest (lookup g a.call_meta) refused g a in
    let (gone, kept, same) = drop_object-rest g i r (rw bridges found) in
    rw (still, dropped, placed)
      (gone, kept ∙ next, same ∙ ap (λ o. (o i).bridge.user_stream_sid) objects)

-- A call that was dialed again loses its user. Where the stream of a group, with the user's stream
-- bound to its bridge, drops before the call is over, with no keypress under way, and its redial is
-- placed: the group's next agent leg gets a new bridge, as objects are numbered in order, and a
-- handoff that is begun on it raises `user_left`, though the user's stream is still bound to the
-- old bridge.
pub redialed_call_has_no_user :
    (g call_id stream_sid user : String) (key refused : Bool) (i : ℕ) (a : App)
    → lookup g a.bridges ≡ some i
    → (a.objects i).bridge.user_stream_sid ≡ some user
    → (a.objects i).bridge.reconnecting ≡ false
    → (a.objects i).finished ≡ false
    → (redial_agent_leg refused g a).0 ≡ true
    → i < a.next_object
    → let b = finish_agent_leg false refused g (some i) a in
      let (j, c) = start_agent g call_id stream_sid b in
      (lookup g c.bridges ≡ some j)
      × ((begin_handoff key (c.objects j).bridge).0 ≡ user_left)
      × ((c.objects i).bridge.user_stream_sid ≡ some user)
redialed_call_has_no_user g call_id stream_sid user key refused i a found waiting still live placed
      lt =
    let b : App = finish_agent_leg false refused g (some i) a in
    let (missing, next, same) = redialed-end refused g i a found (rw live refl) still placed in
    let (bound, left, older) = connect-fresh g call_id stream_sid key b missing in
    (bound, left, ap (λ k. k.bridge.user_stream_sid) (older i (rw next lt)) ∙ (same ∙ waiting))
