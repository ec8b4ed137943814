-- ===== src/Audio/Nearest.antt =====
-- Why the entry that audio.py takes from a sorted table is the nearest.
use dial_pass.Prelude.{
  ℕ, zero, suc, ◌-◌, ◌≤◌, ◌<◌, ◌≡◌, refl, min, true, List, [], ◌∷◌, length, ltb, leb, if◌then◌else◌,
  if_elim, Bool-cases, ◌⊎◌, inl, inr, arith,
}
use dial_pass.Audio.{Entry, search_sorted, entry_at, distance, choose_entry}
use dial_pass.Audio.Table.{is_ascending}

tail-ascending :
    (e : Entry) (es : List Entry) → is_ascending (e ∷ es) ≡ true → is_ascending es ≡ true
tail-ascending e [] h = refl
tail-ascending e (f ∷ es) h = ground arith

-- The first entry is the lowest.
first-le :
    (e : Entry) (es : List Entry) (j : ℕ)
    → is_ascending (e ∷ es) ≡ true
    → j < length (e ∷ es)
    → e.0 ≤ (entry_at (e ∷ es) j).0
first-le e es zero h lt = omega arith
first-le e [] (suc j) h lt = absurd (omega arith)
first-le e (f ∷ es) (suc j) h lt = ground (arith, first-le f es j)

ascending_le :
    (es : List Entry) (i j : ℕ)
    → is_ascending es ≡ true
    → i ≤ j
    → j < length es
    → (entry_at es i).0 ≤ (entry_at es j).0
ascending_le [] i j h le lt = absurd (omega arith)
ascending_le (e ∷ es) zero j h le lt = first-le e es j h lt
ascending_le (e ∷ es) (suc i) zero h le lt = absurd (omega arith)
ascending_le (e ∷ es) (suc i) (suc j) h le lt =
    ascending_le es i j (tail-ascending e es h) (omega arith) (omega arith)

search_sorted_le : (es : List Entry) (s : ℕ) → search_sorted es s ≤ length es
unfolding search_sorted
search_sorted_le [] s = omega arith
search_sorted_le (e ∷ es) s = ground (arith, search_sorted_le es s)

-- The entries before the place that is found are below the sample.
search_sorted_below : (es : List Entry) (s j : ℕ) → j < search_sorted es s → (entry_at es j).0 < s
unfolding search_sorted
search_sorted_below [] s j lt = absurd (omega arith)
search_sorted_below (e ∷ es) s zero lt = ground arith
search_sorted_below (e ∷ es) s (suc j) lt = ground (arith, search_sorted_below es s j)

-- The entry at the place that is found is not below the sample.
search_sorted_at :
    (es : List Entry) (s : ℕ)
    → search_sorted es s < length es
    → s ≤ (entry_at es (search_sorted es s)).0
unfolding search_sorted
search_sorted_at [] s = λ lt. absurd (omega arith)
search_sorted_at (e ∷ es) s =
    if_elim (λ r. r < length (e ∷ es) → s ≤ (entry_at (e ∷ es) r).0) (ltb e.0 s)
      (λ below lt. search_sorted_at es s (omega arith)) (λ other lt. ground arith)

nearer_le :
    (e f : Entry) (s x : ℕ)
    → (distance s e.0 ≤ x) ⊎ (distance s f.0 ≤ x)
    → distance s (if leb (distance s e.0) (distance s f.0) then e else f).0 ≤ x
nearer_le e f s x h =
    if_elim {A = Entry} (λ r. distance s r.0 ≤ x) (leb (distance s e.0) (distance s f.0))
      (λ near. elim h [ inl a ↦ a | inr b ↦ ground arith ])
      (λ far. elim h [ inl a ↦ ground arith | inr b ↦ b ])

distance_below : (s x y : ℕ) → x ≤ y → y ≤ s → distance s y ≤ distance s x
distance_below s x y h k = ground arith

distance_above : (s x y : ℕ) → y ≤ x → s ≤ y → distance s y ≤ distance s x
distance_above s x y h k = ground arith

-- The lower of the two is nearer than any entry before it, and the upper than any entry from it on.
around_le :
    (es : List Entry) (s j i : ℕ)
    → is_ascending es ≡ true
    → j < length es
    → i ≡ min (search_sorted es s) (length es - 1)
    → (distance s (entry_at es (i - 1)).0 ≤ distance s (entry_at es j).0)
      ⊎ (distance s (entry_at es i).0 ≤ distance s (entry_at es j).0)
around_le es s j i up lt e =
    let bound = search_sorted_le es s in
    elim (Bool-cases (ltb j (search_sorted es s))) [
      | inl front ↦ elim (Bool-cases (leb j (i - 1))) [
        | inl before ↦ inl (
            distance_below s (entry_at es j).0 (entry_at es (i - 1)).0
              (ascending_le es j (i - 1) up (ground arith) (ground arith))
              (ground (arith, search_sorted_below es s (i - 1))))
        | inr here ↦ let same : j ≡ i = ground arith in inr (rw same (omega arith))
      ]
      | inr back ↦
          let place : i ≡ search_sorted es s = ground arith in
          inr (
            distance_above s (entry_at es j).0 (entry_at es i).0
              (ascending_le es i j up (ground arith) lt)
              (rw place (search_sorted_at es s (ground arith))))
    ]

-- No entry of a sorted table is nearer to the sample than the one that is chosen.
pub choose_entry_nearest :
    (es : List Entry) (s j : ℕ)
    → is_ascending es ≡ true
    → j < length es
    → distance s (choose_entry es s).0 ≤ distance s (entry_at es j).0
unfolding choose_entry
choose_entry_nearest es s j up lt =
    let idx = min (search_sorted es s) (length es - 1) in
    nearer_le (entry_at es (idx - 1)) (entry_at es idx) s (distance s (entry_at es j).0)
      (around_le es s j idx up lt refl)
