-- ===== src/Scenario/Replay.antt =====
-- What the scripted classifier of classifier.py says of the schedule of testing.py.
use dial_pass.Prelude.{
  ℕ, ◌+◌, ◌-◌, ◌≤◌, ◌≡◌, refl, sym, ◌∙◌, ap, true, false, ◌&&◌, List, [], ◌∷◌, ◌++◌, append_assoc,
  append-nil, ltb, leb, if◌then◌else◌, All, Bool-cases, inl, inr, arith,
}
use dial_pass.Labels.{Label}
use dial_pass.Session.{Classification}
use dial_pass.Classifier.{
  classification, ScheduledLabel, insert_label, sort_labels, replay, scripted,
}
use dial_pass.Scenario.{Segment, schedule_from}

-- The segment that is heard at a time, by the durations alone.
abbrev pub heard_at : ℕ → List Segment → ℕ → Classification
heard_at confidence [] t = classification Label.unknown 300
heard_at confidence (s ∷ script) t =
    let rest = heard_at confidence script (t - s.duration) in
    if ltb t s.duration then classification s.label confidence else rest

abbrev Before : ℕ → ScheduledLabel → Type 0
Before t s = s.t0 ≤ t

-- A label that starts after all of a schedule goes to its end.
insert_label-last :
    (sorted : List ScheduledLabel) (s : ScheduledLabel)
    → All (Before s.t0) sorted
    → insert_label s sorted ≡ sorted ++ s ∷ []
unfolding insert_label
insert_label-last [] s h = refl
insert_label-last (x ∷ xs) s (first, h) =
    let e : leb x.t0 s.t0 ≡ true = ground arith in rw e (ap (λ r. x ∷ r) (insert_label-last xs s h))

later-Before :
    (sorted : List ScheduledLabel) (t d : ℕ) → All (Before t) sorted → All (Before (t + d)) sorted
later-Before [] t d h = tt
later-Before (x ∷ xs) t d (first, h) = (omega arith, later-Before xs t d h)

append-Before :
    (sorted : List ScheduledLabel) (s : ScheduledLabel) (t : ℕ)
    → All (Before t) sorted
    → s.t0 ≤ t
    → All (Before t) (sorted ++ s ∷ [])
append-Before [] s t h le = (le, tt)
append-Before (x ∷ xs) s t (first, h) le = (first, append-Before xs s t h le)

-- The schedule of a script is sorted as it is.
sort_labels-schedule_from :
    (script : List Segment) (t : ℕ) (sorted : List ScheduledLabel)
    → All (Before t) sorted
    → sort_labels sorted (schedule_from t script) ≡ sorted ++ schedule_from t script
unfolding sort_labels schedule_from
sort_labels-schedule_from [] t sorted h = rw append-nil refl
sort_labels-schedule_from (s ∷ script) t sorted h =
    let x : ScheduledLabel = record { label = s.label; t0 = t; t1 = t + s.duration } in
    let ih = sort_labels-schedule_from script (t + s.duration) (sorted ++ x ∷ []) (
      append-Before sorted x (t + s.duration) (later-Before sorted t s.duration h) (omega arith)) in
    ap (λ r. sort_labels r (schedule_from (t + s.duration) script)) (insert_label-last sorted x h)
    ∙ ih
    ∙ rw append_assoc refl

replay-schedule_from :
    (confidence : ℕ) (script : List Segment) (start u : ℕ)
    → replay confidence (schedule_from start script) (start + u) ≡ heard_at confidence script u
unfolding replay schedule_from
replay-schedule_from confidence [] start u = refl
replay-schedule_from confidence (s ∷ script) start u =
    let later = start + s.duration in
    elim (Bool-cases (ltb u s.duration)) [
      | inl now ↦
          let within : (leb start (start + u) && ltb (start + u) later) ≡ true = ground arith in
          rw (within, now) refl
      | inr over ↦
          let past : (leb start (start + u) && ltb (start + u) later) ≡ false = ground arith in
          let place : later + (u - s.duration) ≡ start + u = ground arith in
          rw (past, over)
            (rw (← place) (replay-schedule_from confidence script later (u - s.duration)))
    ]

-- The scripted classifier says of every time of a synthetic call the label of the segment that is
-- heard then, and that it does not know once the call is over.
pub scripted-schedule_from :
    (confidence : ℕ) (script : List Segment) (u : ℕ)
    → scripted (schedule_from 0 script) confidence u ≡ heard_at confidence script u
unfolding scripted
scripted-schedule_from confidence script u =
    let e : 0 + u ≡ u = omega arith in
    let told : replay confidence (schedule_from 0 script) u ≡ heard_at confidence script u =
      ap (replay confidence (schedule_from 0 script)) (sym e)
      ∙ replay-schedule_from confidence script 0 u in
    rw (sort_labels-schedule_from script 0 [] tt) told
