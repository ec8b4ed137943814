-- ===== src/Media/Closing.antt =====
-- What `_teardown_group` of media.py does up to the context: the requests to Twilio and the bridge.
use dial_pass.Prelude.{
  ℕ, ◌≡◌, ◌≢◌, ap, ◌∙◌, String, Bool, true, Option, none, some, if◌then◌else◌, arith,
}
use dial_pass.Prelude.Dict.{lookup, erase}
use dial_pass.Bridge
use dial_pass.Bridge.{CallBridge}
use dial_pass.Media.{Call, App, put, hang_up, sms, sms_reason, end_bridge, close_object}

-- The group has no bridge and no context.
pub record IsForgotten (group : String) (a : App) : Type 0 where
  pub no_bridge : lookup group a.bridges ≡ none
  pub no_goal : lookup group a.pending_goals ≡ none
  pub no_leg : lookup group a.user_legs ≡ none
  pub no_number : lookup group a.user_numbers ≡ none
  pub no_meta : lookup group a.call_meta ≡ none

-- The dictionaries that are keyed by a group agree on it.
pub record SameGroup (group : String) (a b : App) : Type 0 where
  pub bridge : lookup group b.bridges ≡ lookup group a.bridges
  pub goal : lookup group b.pending_goals ≡ lookup group a.pending_goals
  pub leg : lookup group b.user_legs ≡ lookup group a.user_legs
  pub number : lookup group b.user_numbers ≡ lookup group a.user_numbers
  pub meta : lookup group b.call_meta ≡ lookup group a.call_meta

-- What the requests leave alone.
pub record SameState (a b : App) : Type 0 where
  pub bridges : b.bridges ≡ a.bridges
  pub sessions : b.sessions ≡ a.sessions
  pub goals : b.pending_goals ≡ a.pending_goals
  pub legs : b.user_legs ≡ a.user_legs
  pub numbers : b.user_numbers ≡ a.user_numbers
  pub meta : b.call_meta ≡ a.call_meta
  pub objects : b.objects ≡ a.objects

hang_up-SameState : (sid : Option String) (a : App) → SameState a (hang_up sid a)
unfolding hang_up
hang_up-SameState none a = ground arith
hang_up-SameState (some sid) a = ground arith

sms_reason-SameState : (r : Option String) (g : String) (a : App) → SameState a (sms_reason r g a)
unfolding sms
sms_reason-SameState r g a = ground arith

-- What closing an object leaves alone.
pub record Closes (i : ℕ) (a b : App) : Type 0 where
  pub others : (j : ℕ) → j ≢ i → b.objects j ≡ a.objects j
  pub finished : (b.objects i).finished ≡ (a.objects i).finished
  pub waits : (b.objects i).bridge.reconnecting ≡ (a.objects i).bridge.reconnecting
  pub since : (b.objects i).bridge.reconnect_since ≡ (a.objects i).bridge.reconnect_since
  pub is_closed : (b.objects i).bridge.closed ≡ true

pub put_same : (i : ℕ) (c : Call) (heap : ℕ → Call) → put i c heap i ≡ c
put_same i c heap = ground arith

pub put_other : (i j : ℕ) (c : Call) (heap : ℕ → Call) → j ≢ i → put i c heap j ≡ heap j
put_other i j c heap n = ground arith

-- `Bridge.close` sets only the flag.
close_cases :
    (b : CallBridge)
    → ((Bridge.close b).closed ≡ true)
      × ((Bridge.close b).reconnecting ≡ b.reconnecting)
      × ((Bridge.close b).reconnect_since ≡ b.reconnect_since)
unfolding Bridge.close
close_cases b = ground arith

pub close_object-Closes : (i : ℕ) (a : App) → Closes i a (close_object i a)
unfolding close_object
close_object-Closes i a =
    let c : Call = a.objects i in
    let closed_one : Call = record c { bridge = Bridge.close c.bridge } in
    let here = put_same i closed_one a.objects in
    let (shut, waits, since) = close_cases c.bridge in
    record {
      others = λ j n. put_other i j closed_one a.objects n;
      finished = ap (λ k. k.finished) here;
      waits = ap (λ k. k.bridge.reconnecting) here ∙ waits;
      since = ap (λ k. k.bridge.reconnect_since) here ∙ since;
      is_closed = ap (λ k. k.bridge.closed) here ∙ shut;
    }

-- `end_bridge` takes the bridge out, closes it, and leaves the context and the other objects alone.
pub record EndsBridge (group : String) (i : ℕ) (a b : App) : Type 0 where
  pub bridges : b.bridges ≡ erase group a.bridges
  pub sessions : b.sessions ≡ erase (a.objects i).call_id a.sessions
  pub goals : b.pending_goals ≡ a.pending_goals
  pub legs : b.user_legs ≡ a.user_legs
  pub numbers : b.user_numbers ≡ a.user_numbers
  pub meta : b.call_meta ≡ a.call_meta
  pub others : (j : ℕ) → j ≢ i → b.objects j ≡ a.objects j
  pub finished : (b.objects i).finished ≡ (a.objects i).finished
  pub waits : (b.objects i).bridge.reconnecting ≡ (a.objects i).bridge.reconnecting
  pub since : (b.objects i).bridge.reconnect_since ≡ (a.objects i).bridge.reconnect_since
  pub is_closed : (b.objects i).bridge.closed ≡ true

requests-SameState :
    (reason : Option String) (hang : Bool) (group : String) (c : Call) (b : App)
    → let d = sms_reason reason group b in
      SameState b (if hang then hang_up c.user_leg_sid (hang_up (some c.call_id) d) else d)
requests-SameState reason hang group c b =
    let d : App = sms_reason reason group b in
    ground (
      arith,
      sms_reason-SameState reason group b,
      hang_up-SameState (some c.call_id) d,
      hang_up-SameState c.user_leg_sid (hang_up (some c.call_id) d),
    )

pub end_bridge-EndsBridge :
    (reason : Option String) (hang : Bool) (group : String) (i : ℕ) (a : App)
    → EndsBridge group i a (end_bridge reason hang group i a)
unfolding end_bridge close_object
end_bridge-EndsBridge reason hang group i a =
    let c : Call = a.objects i in
    let b : App = record a {
      bridges = erase group a.bridges;
      sessions = erase c.call_id a.sessions;
    } in
    let d : App = sms_reason reason group b in
    let e : App = (if hang then hang_up c.user_leg_sid (hang_up (some c.call_id) d) else d) in
    let same : SameState b e = requests-SameState reason hang group c b in
    let shut = close_object-Closes i e in
    record {
      bridges = same.bridges;
      sessions = same.sessions;
      goals = same.goals;
      legs = same.legs;
      numbers = same.numbers;
      meta = same.meta;
      others = λ j n. shut.others j n ∙ ap (λ f. f j) same.objects;
      finished = shut.finished ∙ ap (λ f. (f i).finished) same.objects;
      waits = shut.waits ∙ ap (λ f. (f i).bridge.reconnecting) same.objects;
      since = shut.since ∙ ap (λ f. (f i).bridge.reconnect_since) same.objects;
      is_closed = shut.is_closed;
    }
