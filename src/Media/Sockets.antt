-- ===== src/Media/Sockets.antt =====
-- What the handlers of the sockets of media.py do together.
use dial_pass.Prelude.{
  ℕ, zero, suc, ◌+◌, ◌≤◌, String, Bool, true, false, Option, none, some, List, [], ◌∷◌, arith,
  if_elim, str_eq, eq_iff, if◌then◌else◌,
}
use dial_pass.Prelude.Dict.{lookup, lookup-insert}
use dial_pass.Bridge.{Bytes}
use dial_pass.Media.{App, Meta, start_agent}
use dial_pass.Media.Legs.{user_gone, CallRequest, create_call}
use dial_pass.Media.Redial.{
  dials, redials_left, Spends, finish_agent_leg-Spends, start-Quiet, user_gone-Spends,
  happen-Spends, left_at_most,
}
use dial_pass.Media.Socket.{
  Start, Read, start, media, stop, other, disconnected, waited, Mode, reading, waiting, serving,
  ended, Socket, text_or, group_of, is_user, hear_held, finish, attach_or, try_attach, end_user,
  start_leg, step_in, step, attach_tries, Turn, socket, created, happening, turn, serve,
}

module _ (g : String) where
  -- A call is dialed once and redialed twice.
  abbrev pub allowance : Turn → ℕ
  allowance (created req h placed user_leg) = if str_eq h g then 3 else 0
  allowance _ = 0

  abbrev Sparing : App → Socket × App → Type 0
  Sparing a r = Spends g a r.1

  hear_held-Spends : (o : Option ℕ) (ulaw : Bytes) (a : App) → Spends g a (hear_held o ulaw a)
  hear_held-Spends none ulaw a = omega arith
  hear_held-Spends (some i) ulaw a = omega arith

  finish-Sparing :
      (saw_stop refused : Bool) (s : Socket) (a : App) → Sparing a (finish saw_stop refused s a)
  unfolding finish
  finish-Sparing saw_stop refused s a = finish_agent_leg-Spends g saw_stop refused s.group s.held a

  attach_or-Sparing :
      (o : Option ℕ) (s : Socket) (a : App) (missing : Socket × App)
      → Sparing a missing
      → Sparing a (attach_or o s a missing)
  attach_or-Sparing none s a missing h = h
  attach_or-Sparing (some i) s a missing h = omega arith

  try_attach-Sparing :
      (n : ℕ) (refused : Bool) (s : Socket) (a : App) → Sparing a (try_attach n refused s a)
  unfolding try_attach
  try_attach-Sparing zero refused s a = finish-Sparing false refused s a
  try_attach-Sparing (suc n) refused s a =
      attach_or-Sparing (lookup s.group a.bridges) s a (record s { mode = waiting n }, a)
        (omega arith)

  end_user-Sparing :
      (refused : Bool) (i : ℕ) (s : Socket) (a : App) → Sparing a (end_user refused i s a)
  unfolding end_user
  end_user-Sparing refused i s a =
      omega (arith, user_gone-Spends g i a, finish-Sparing false refused s (user_gone i a))

  start_leg-Sparing :
      (refused : Bool) (m : Start) (s : Socket) (a : App) → Sparing a (start_leg refused m s a)
  unfolding start_leg start_agent
  start_leg-Sparing refused m s a =
      if_elim {A = Socket × App} (Sparing a) (is_user m.role_param)
        (λ user.
          try_attach-Sparing attach_tries refused
            (record s { group = group_of m; user_stream = text_or m.stream_sid "" }) a)
        (λ agent.
          let q =
            start-Quiet g (lookup (group_of m) a.bridges) (group_of m)
              (text_or m.call_sid "unknown") (text_or m.stream_sid "") a in
          ground (arith, q))

  step_in-Sparing :
      (mode : Mode) (refused : Bool) (read : Read) (s : Socket) (a : App)
      → Sparing a (step_in mode refused read s a)
  unfolding step_in
  step_in-Sparing reading refused (start m) s a = start_leg-Sparing refused m s a
  step_in-Sparing reading refused (media ulaw) s a = hear_held-Spends s.held ulaw a
  step_in-Sparing reading refused stop s a = finish-Sparing true refused s a
  step_in-Sparing reading refused disconnected s a = finish-Sparing false refused s a
  step_in-Sparing reading refused other s a = omega arith
  step_in-Sparing reading refused waited s a = omega arith
  step_in-Sparing (waiting n) refused waited s a = try_attach-Sparing n refused s a
  step_in-Sparing (waiting n) refused (start m) s a = omega arith
  step_in-Sparing (waiting n) refused (media ulaw) s a = omega arith
  step_in-Sparing (waiting n) refused stop s a = omega arith
  step_in-Sparing (waiting n) refused other s a = omega arith
  step_in-Sparing (waiting n) refused disconnected s a = omega arith
  step_in-Sparing (serving i) refused (start m) s a = omega arith
  step_in-Sparing (serving i) refused (media ulaw) s a = omega arith
  step_in-Sparing (serving i) refused stop s a = end_user-Sparing refused i s a
  step_in-Sparing (serving i) refused disconnected s a = end_user-Sparing refused i s a
  step_in-Sparing (serving i) refused other s a = omega arith
  step_in-Sparing (serving i) refused waited s a = omega arith
  step_in-Sparing ended refused read s a = omega arith

  -- How often the requests for calls may lead to a dial.
  abbrev pub allowed : List Turn → ℕ
  allowed [] = 0
  allowed (t ∷ ts) = allowance t + allowed ts

  create_call-dials :
      (req : CallRequest) (h : String) (placed : Bool) (user_leg : Option String) (a : App)
      → let b = (create_call req h placed user_leg a).1 in
        dials g b.requests + redials_left g b
        ≤ dials g a.requests + redials_left g a + (if str_eq h g then 3 else 0)
  unfolding create_call
  create_call-dials req h placed user_leg a =
      let fresh : Meta = record { business_number = req.business_number; redials = 0 } in
      ground (arith, eq_iff h g, lookup-insert h g fresh a.call_meta)

  turn-dials :
      (t : Turn) (sockets : ℕ → Socket) (a : App)
      → let b = (turn t (sockets, a)).1 in
        dials g b.requests + redials_left g b ≤ dials g a.requests + redials_left g a + allowance t
  unfolding turn step
  turn-dials (socket n refused read) sockets a =
      omega (arith, step_in-Sparing (sockets n).mode refused read (sockets n) a)
  turn-dials (created req h placed user_leg) sockets a = create_call-dials req h placed user_leg a
  turn-dials (happening e) sockets a = omega (arith, happen-Spends g e a)

  serve-dials :
      (ts : List Turn) (sockets : ℕ → Socket) (a : App)
      → let b = (serve ts (sockets, a)).1 in
        dials g b.requests + redials_left g b ≤ dials g a.requests + redials_left g a + allowed ts
  unfolding serve
  serve-dials [] sockets a = omega arith
  serve-dials (t ∷ ts) sockets a =
      let (next, b) = turn t (sockets, a) in
      omega (arith, turn-dials t sockets a, serve-dials ts next b)

  -- However the handlers of any number of sockets, the requests for calls, the sessions, the
  -- keypresses and the sweeper take turns, the business of a group is dialed no more often than
  -- three times for each request for a call of that group and, beside these, than it had redials
  -- left at the start, which are two at most.
  pub dials_bounded :
      (ts : List Turn) (sockets : ℕ → Socket) (a : App)
      → let b = (serve ts (sockets, a)).1 in
        (dials g b.requests ≤ dials g a.requests + redials_left g a + allowed ts)
        × (redials_left g a ≤ 2)
  dials_bounded ts sockets a =
      (omega (arith, serve-dials ts sockets a), left_at_most (lookup g a.call_meta))
