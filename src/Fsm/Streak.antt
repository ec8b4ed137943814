-- ===== src/Fsm/Streak.antt =====
-- The debounce of state.py, against a description by the ticks heard since the state was entered.
use dial_pass.Prelude.{
  ℕ, suc, ◌≡◌, refl, false, Option, none, some, List, [], ◌∷◌, Option-cases, inl, inr, ltb,
  if◌then◌else◌, arith,
}
use dial_pass.Labels.{Label, index-injective, label_eq}
use dial_pass.Fsm.{CallStateMachine, streak_for}

pub record Tick : Type 0 where
  pub label : Label
  pub confidence : ℕ

-- Ticks are listed latest first.
abbrev pub last_confident : ℕ → List Tick → Option Label
last_confident least [] = none
last_confident least (t ∷ h) =
    if ltb t.confidence least then last_confident least h else some t.label

-- How many of the latest confident ticks in a row had the label.
abbrev pub run_length : ℕ → Label → List Tick → ℕ
run_length least l [] = 0
run_length least l (t ∷ h) =
    let rest = run_length least l h in
    if ltb t.confidence least then rest else if label_eq l t.label then suc rest else 0

abbrev run_of : ℕ → Option Label → List Tick → ℕ
run_of least none h = 0
run_of least (some l) h = run_length least l h

-- The machine's streak is the run of the ticks since it entered its state.
pub record Tracks (h : List Tick) (m : CallStateMachine) : Type 0 where
  pub label : m.streak_label ≡ last_confident m.cfg.min_confidence h
  pub count : m.streak ≡ run_of m.cfg.min_confidence m.streak_label h

run_length-other :
    (least : ℕ) (l k : Label) (h : List Tick)
    → last_confident least h ≡ some k
    → label_eq l k ≡ false
    → run_length least l h ≡ 0
run_length-other least l k [] e ne = refl
run_length-other least l k (t ∷ h) e ne = ground (arith, run_length-other least l k h)

run_length-silent :
    (least : ℕ) (l : Label) (h : List Tick)
    → last_confident least h ≡ none
    → run_length least l h ≡ 0
run_length-silent least l [] e = refl
run_length-silent least l (t ∷ h) e = ground (arith, run_length-silent least l h)

module _ (t : Tick) (h : List Tick) (m : CallStateMachine) (tracked : Tracks h m) where
  -- One tick keeps the account.
  pub streak_for-Tracks : Tracks (t ∷ h) (streak_for t.label t.confidence m).0
  unfolding streak_for
  streak_for-Tracks = elim (Option-cases (last_confident m.cfg.min_confidence h)) [
    | inl e ↦ ground (arith, run_length-silent m.cfg.min_confidence t.label h)
    | inr (k, e) ↦
        ground (arith, run_length-other m.cfg.min_confidence t.label k h, index-injective t.label k)
  ]

  -- The streak that a tick counts: 0 when it is not confident, else the run that it ends.
  pub streak_for-eq-run : (streak_for t.label t.confidence m).1 ≡ (
      if ltb t.confidence m.cfg.min_confidence
      then 0
      else run_length m.cfg.min_confidence t.label (t ∷ h))
  unfolding streak_for
  streak_for-eq-run = elim (Option-cases (last_confident m.cfg.min_confidence h)) [
    | inl e ↦ ground (arith, run_length-silent m.cfg.min_confidence t.label h)
    | inr (k, e) ↦
        ground (arith, run_length-other m.cfg.min_confidence t.label k h, index-injective t.label k)
  ]
