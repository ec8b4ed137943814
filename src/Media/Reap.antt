-- ===== src/Media/Reap.antt =====
-- What `reap_stale_bridges` of media.py leaves behind.
use dial_pass.Prelude.{
  ℕ, ◌+◌, ◌<◌, ◌≡◌, ◌≢◌, ◌↔◌, none, Bool-cases, refl, sym, ap, ◌∙◌, String, Bool, true, false,
  Option, some, List, [], ◌∷◌, str_eq, eq_iff, if◌then◌else◌, if_elim, arith, inl, inr, ◌⊎◌,
}
use dial_pass.Prelude.Dict.{Dict, lookup}
use dial_pass.Bridge.{CallBridge}
use dial_pass.Media.{App, teardown_group, reap_each, reap_stale_bridges, is_stale}
use dial_pass.Media.Teardown.{teardown_group-TornDown}

-- A bridge that is in the dictionary after a teardown was in it before, and is of another group.
still_there :
    (r : Option String) (hang : Bool) (h g : String) (i : ℕ) (a : App)
    → lookup g (teardown_group r hang h a).bridges ≡ some i
    → (h ≢ g) × (lookup g a.bridges ≡ some i)
still_there r hang h g i a found =
    let t = teardown_group-TornDown r hang h a in
    let other : h ≢ g = λ e.
      cc (ap (λ k. lookup k (teardown_group r hang h a).bridges) e, t.forgotten.no_bridge, found) in
    (other, sym ((t.others g other).bridge) ∙ found)

same_stale :
    (now : ℕ) (r : Option String) (hang : Bool) (h : String) (i : ℕ) (a : App)
    → is_stale now ((teardown_group r hang h a).objects i).bridge
      ≡ is_stale now (a.objects i).bridge
same_stale now r hang h i a =
    let t = teardown_group-TornDown r hang h a in rw (t.waits i) (rw (t.since i) refl)

-- What the loop of the sweeper keeps and what it takes.
record Swept (l : List (String × ℕ)) (now : ℕ) (a b : App) : Type 0 where
  was_there : (g : String) (i : ℕ) → lookup g b.bridges ≡ some i → lookup g a.bridges ≡ some i
  stale : (i : ℕ) → is_stale now (b.objects i).bridge ≡ is_stale now (a.objects i).bridge
  fresh :
      (g : String) (i : ℕ)
      → lookup g l ≡ some i
      → lookup g b.bridges ≡ some i
      → is_stale now (a.objects i).bridge ≡ false

lookup-cons :
    (g h : String) (j : ℕ) (l : Dict ℕ)
    → lookup g ((h, j) ∷ l) ≡ (if str_eq h g then some j else lookup g l)
unfolding lookup
lookup-cons g h j l = refl

lookup_later :
    (g h : String) (i j : ℕ) (l : Dict ℕ)
    → h ≢ g
    → lookup g ((h, j) ∷ l) ≡ some i
    → lookup g l ≡ some i
lookup_later g h i j l other e = ground (arith, eq_iff h g, lookup-cons g h j l)

lookup_first :
    (g h : String) (i j : ℕ) (l : Dict ℕ)
    → lookup g ((h, j) ∷ l) ≡ some i
    → (j ≡ i) ⊎ (lookup g l ≡ some i)
lookup_first g h i j l e = ground (arith, lookup-cons g h j l)

one_taken :
    (h : String) (j now : ℕ) (l : List (String × ℕ)) (a b : App)
    → Swept l now (teardown_group (some "dropped") true h a) b
    → Swept ((h, j) ∷ l) now a b
one_taken h j now l a b s =
    let back = still_there (some "dropped") true h in
    let same = same_stale now (some "dropped") true h in
    record {
      was_there = λ g i e. (back g i a (s.was_there g i e)).1;
      stale = λ i. s.stale i ∙ same i a;
      fresh = λ g i e inside.
          sym (same i a)
          ∙ s.fresh g i (lookup_later g h i j l (back g i a (s.was_there g i inside)).0 e) inside;
    }

one_left :
    (h : String) (j now : ℕ) (l : List (String × ℕ)) (a b : App)
    → is_stale now (a.objects j).bridge ≡ false
    → Swept l now a b
    → Swept ((h, j) ∷ l) now a b
one_left h j now l a b young s = record {
  was_there = s.was_there;
  stale = s.stale;
  fresh = λ g i e inside. elim (lookup_first g h i j l e) [
    | inl here ↦ ap (λ k. is_stale now (a.objects k).bridge) (sym here) ∙ young
    | inr later ↦ s.fresh g i later inside
  ];
}

lookup-nil : (g : String) (i : ℕ) → lookup {V = ℕ} g [] ≢ some i
unfolding lookup
lookup-nil g i e = cc e

reap-Swept : (l : List (String × ℕ)) (now : ℕ) (a : App) → Swept l now a (reap_each l now a).1
unfolding reap_each
reap-Swept [] now a = record {
  was_there = λ g i e. e;
  stale = λ i. refl;
  fresh = λ g i e. absurd (lookup-nil g i e);
}
reap-Swept ((h, j) ∷ l) now a =
    let b : App = teardown_group (some "dropped") true h a in
    if_elim {A = ℕ × App} (λ r. Swept ((h, j) ∷ l) now a r.1) (is_stale now (a.objects j).bridge)
      (λ old. one_taken h j now l a (reap_each l now b).1 (reap-Swept l now b))
      (λ young. one_left h j now l a (reap_each l now a).1 young (reap-Swept l now a))

-- Another group's bridge stays in the dictionary through a teardown.
stays :
    (h g : String) (i : ℕ) (a : App)
    → h ≢ g
    → lookup g a.bridges ≡ some i
    → lookup g (teardown_group (some "dropped") true h a).bridges ≡ some i
stays h g i a other e =
    ((teardown_group-TornDown (some "dropped") true h a).others g other).bridge ∙ e

-- A dictionary has each key once.
abbrev pub IsDict : Dict ℕ → Type 0
IsDict [] = Unit
IsDict ((h, i) ∷ d) = (lookup h d ≡ none) × IsDict d

-- A bridge that has not been taken out, of a group that the loop has yet to come to, if at all, and is
-- then not stale, is left in.
reap-leaves :
    (l : List (String × ℕ)) (now : ℕ) (g : String) (i : ℕ) (a : App)
    → IsDict l
    → ((j : ℕ) → lookup g l ≡ some j → j ≡ i)
    → is_stale now (a.objects i).bridge ≡ false
    → lookup g a.bridges ≡ some i
    → lookup g (reap_each l now a).1.bridges ≡ some i
unfolding reap_each
reap-leaves [] now g i a d only young e = e
reap-leaves ((h, j) ∷ l) now g i a (missing, d) only young e =
    let b : App = teardown_group (some "dropped") true h a in
    let cons = lookup-cons g h j l in
    let later : (k : ℕ) → lookup g l ≡ some k → k ≡ i = λ k at.
      if_elim (λ o. lookup g ((h, j) ∷ l) ≡ o → k ≡ i) (str_eq h g) {x = some j} {y = lookup g l}
        (λ same _. cc (missing, at, ap (λ n. lookup n l) ((eq_iff h g).0 same)))
        (λ other same. only k (same ∙ at)) cons in
    if_elim {A = ℕ × App} (λ r. lookup g r.1.bridges ≡ some i) (is_stale now (a.objects j).bridge)
      (λ old.
        let other : h ≢ g = λ same.
          let here : j ≡ i = only j (ground (arith, cons, eq_iff h g)) in
          cc (old, young, ap (λ k. is_stale now (a.objects k).bridge) here) in
        reap-leaves l now g i b d later (same_stale now (some "dropped") true h i a ∙ young)
          (stays h g i a other e))
      (λ _. reap-leaves l now g i a d later young e)

-- A bridge whose keypress redirect has been under way for more than twenty seconds.
abbrev pub IsStuck : ℕ → CallBridge → Type 0
IsStuck now b =
    (b.reconnecting ≡ true)
    × ((since : ℕ) × (b.reconnect_since ≡ some since) × (since + 160000 < now))

is_stale_cases :
    (now : ℕ) (b : CallBridge) (o : Option ℕ)
    → b.reconnect_since ≡ o
    → (is_stale now b ≡ true) ↔ IsStuck now b
is_stale_cases now b none e = (λ h. absurd (ground arith), λ (r, (since, at, late)). cc (e, at))
is_stale_cases now b (some t) e =
    (λ h. (ground arith, (t, e, ground arith)), λ (r, (since, at, late)). ground arith)

is_stale_iff : (now : ℕ) (b : CallBridge) → (is_stale now b ≡ true) ↔ IsStuck now b
is_stale_iff now b = is_stale_cases now b b.reconnect_since refl

-- A sweep takes the bridges that are stuck and leaves the others: of the bridges that were in the
-- dictionary, exactly those are in it afterwards whose keypress redirect has not been under way for
-- more than twenty seconds.
pub reap_leaves_fresh :
    (now : ℕ) (a : App) (g : String) (i : ℕ)
    → IsDict a.bridges
    → (lookup g (reap_stale_bridges now a).1.bridges ≡ some i)
      ↔ ((lookup g a.bridges ≡ some i) × ¬ IsStuck now (a.objects i).bridge)
unfolding reap_stale_bridges
reap_leaves_fresh now a g i d = (
  λ e.
      let s = reap-Swept a.bridges now a in
      let there = s.was_there g i e in
      (there, λ stuck. cc (s.fresh g i there e, (is_stale_iff now (a.objects i).bridge).1 stuck)),
  λ (e, free).
      let only : (j : ℕ) → lookup g a.bridges ≡ some j → j ≡ i = λ j f. ground (arith, e, f) in
      elim (Bool-cases (is_stale now (a.objects i).bridge)) [
        | inl old ↦ absurd (free ((is_stale_iff now (a.objects i).bridge).0 old))
        | inr young ↦ reap-leaves a.bridges now g i a d only young e
      ],
)
