-- ===== src/Media/Teardown.antt =====
-- What `_teardown_group` of media.py leaves behind.
use dial_pass.Prelude.{
  ℕ, ◌≡◌, ◌≢◌, refl, sym, ap, ◌∙◌, String, Bool, true, false, Option, none, some, str_eq, eq_iff,
  arith, Option-cases, inl, inr, ◌⊎◌,
}
use dial_pass.Prelude.Dict.{Dict, lookup, erase, lookup-erase, erase_missing}
use dial_pass.Media.{Call, App, teardown_group, clear_context, end_bridge}
use dial_pass.Media.Closing.{IsForgotten, SameGroup, EndsBridge, end_bridge-EndsBridge}

-- What `_teardown_group` does, whatever its reason.
pub record TornDown (group : String) (a b : App) : Type 0 where
  pub forgotten : IsForgotten group b
  pub others : (g : String) → group ≢ g → SameGroup g a b
  pub waits : (j : ℕ) → (b.objects j).bridge.reconnecting ≡ (a.objects j).bridge.reconnecting
  pub since : (j : ℕ) → (b.objects j).bridge.reconnect_since ≡ (a.objects j).bridge.reconnect_since
  pub finished : (j : ℕ) → (b.objects j).finished ≡ (a.objects j).finished
  pub kept : (j : ℕ) → lookup group a.bridges ≢ some j → b.objects j ≡ a.objects j
  pub is_closed : (i : ℕ) → lookup group a.bridges ≡ some i → (b.objects i).bridge.closed ≡ true

str_neq : (g h : String) → g ≢ h → str_eq g h ≡ false
str_neq g h n = ground (arith, eq_iff g h)

str_same : (g : String) → str_eq g g ≡ true
str_same g = ground (arith, eq_iff g g)

erased : {V : Type 0} (g : String) (d : Dict V) → lookup g (erase g d) ≡ none
erased g d = lookup-erase g g d ∙ rw (str_same g) refl

kept_by_erase : {V : Type 0} (g h : String) (d : Dict V) → g ≢ h → lookup h (erase g d) ≡ lookup h d
kept_by_erase g h d n = lookup-erase g h d ∙ rw (str_neq g h n) refl

pub same_or_not : (i j : ℕ) → (i ≡ j) ⊎ (i ≢ j)
same_or_not i j = ground arith

-- A part that is kept at `i`, and whole elsewhere, is kept everywhere.
pub kept_everywhere :
    {X : Type 0} (f : Call → X) (i : ℕ) (old new : ℕ → Call)
    → ((j : ℕ) → j ≢ i → new j ≡ old j)
    → f (new i) ≡ f (old i)
    → (j : ℕ) → f (new j) ≡ f (old j)
kept_everywhere f i old new others here j = elim (same_or_not j i) [
  | inl e ↦ rw e here
  | inr n ↦ ap f (others j n)
]

-- The whole from its two steps, where the group has a bridge.
after_end :
    (group : String) (i : ℕ) (a b : App)
    → lookup group a.bridges ≡ some i
    → EndsBridge group i a b
    → TornDown group a (clear_context group b)
unfolding clear_context
after_end group i a b found e = record {
  forgotten = record {
    no_bridge = rw e.bridges (erased group a.bridges);
    no_goal = erased group b.pending_goals;
    no_leg = erased group b.user_legs;
    no_number = erased group b.user_numbers;
    no_meta = erased group b.call_meta;
  };
  others = λ g n. record {
    bridge = rw e.bridges (kept_by_erase group g a.bridges n);
    goal = kept_by_erase group g b.pending_goals n ∙ rw e.goals refl;
    leg = kept_by_erase group g b.user_legs n ∙ rw e.legs refl;
    number = kept_by_erase group g b.user_numbers n ∙ rw e.numbers refl;
    meta = kept_by_erase group g b.call_meta n ∙ rw e.meta refl;
  };
  waits = kept_everywhere (λ c. c.bridge.reconnecting) i a.objects b.objects e.others e.waits;
  since = kept_everywhere (λ c. c.bridge.reconnect_since) i a.objects b.objects e.others e.since;
  finished = kept_everywhere (λ c. c.finished) i a.objects b.objects e.others e.finished;
  kept = λ j n. e.others j (λ s. n (found ∙ ap some (sym s)));
  is_closed = λ k h. cc (found, h, e.is_closed);
}

-- A group without a bridge.
without_bridge :
    (group : String) (a : App)
    → lookup group a.bridges ≡ none
    → TornDown group a (clear_context group a)
unfolding clear_context
without_bridge group a missing = record {
  forgotten = record {
    no_bridge = missing;
    no_goal = erased group a.pending_goals;
    no_leg = erased group a.user_legs;
    no_number = erased group a.user_numbers;
    no_meta = erased group a.call_meta;
  };
  others = λ g n. record {
    bridge = refl;
    goal = kept_by_erase group g a.pending_goals n;
    leg = kept_by_erase group g a.user_legs n;
    number = kept_by_erase group g a.user_numbers n;
    meta = kept_by_erase group g a.call_meta n;
  };
  waits = λ j. refl;
  since = λ j. refl;
  finished = λ j. refl;
  kept = λ j n. refl;
  is_closed = λ i h. cc (missing, h);
}

-- `_teardown_group`, with any reason and with or without hanging up, forgets the group: its bridge
-- is out of the dictionary and closed, and its context is gone. All that is kept for another group
-- stays, and so does every other object; no object changes whether it is finished or reconnecting.
pub teardown_group-TornDown :
    (reason : Option String) (hang : Bool) (group : String) (a : App)
    → TornDown group a (teardown_group reason hang group a)
unfolding teardown_group
teardown_group-TornDown reason hang group a = elim (Option-cases (lookup group a.bridges)) [
  | inl missing ↦ rw missing (without_bridge group a missing)
  | inr (i, found) ↦ rw found (
      after_end group i a (end_bridge reason hang group i a) found
        (end_bridge-EndsBridge reason hang group i a))
]

-- Nothing is left to clear.
clear_forgotten : (group : String) (a : App) → IsForgotten group a → clear_context group a ≡ a
unfolding clear_context
clear_forgotten group a f = rw (erase_missing group a.pending_goals f.no_goal) (
    rw (erase_missing group a.user_legs f.no_leg) (
      rw (erase_missing group a.user_numbers f.no_number)
        (rw (erase_missing group a.call_meta f.no_meta) refl)))

again :
    (r : Option String) (h : Bool) (group : String) (a : App)
    → IsForgotten group a
    → teardown_group r h group a ≡ a
unfolding teardown_group
again r h group a f = rw f.no_bridge (clear_forgotten group a f)

-- `_teardown_group` is idempotent: a second one for the group, for whatever reason, changes nothing
-- and sends no request.
pub teardown_idempotent :
    (r r' : Option String) (h h' : Bool) (group : String) (a : App)
    → teardown_group r' h' group (teardown_group r h group a) ≡ teardown_group r h group a
teardown_idempotent r r' h h' group a =
    let b : App = teardown_group r h group a in
    let f = (teardown_group-TornDown r h group a).forgotten in again r' h' group b f
