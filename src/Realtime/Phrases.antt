-- ===== src/Realtime/Phrases.antt =====
-- What client.py takes from a reply that has no JSON object.
use dial_pass.Prelude.{
  ℕ, zero, suc, ◌≤◌, ◌≡◌, refl, String, false, Option, none, some, if_elim, Option-cases, inl, inr,
  arith,
}
use dial_pass.Prelude.Text.{is_empty, size, after_any, strip}
use dial_pass.Breaker.{value}
use dial_pass.Tier2.{MenuDecision}
use dial_pass.Realtime.Client.{decide, choose_digit}
use dial_pass.Realtime.Reply.{
  press_words, key_within, press_here, press_digit, names_operator, from_brace, to_brace, read_blob,
  fallback, parse_verdict,
}

abbrev pub IsOneKey : Option String → Type 0
IsOneKey o = (k : String) → o ≡ some k → size k ≡ 1

key_within-IsOneKey : (n : ℕ) (s : String) → IsOneKey (key_within n s)
unfolding key_within
key_within-IsOneKey n String.[] k e = ground arith
key_within-IsOneKey zero (String.◌∷◌ c s) k e = ground arith
key_within-IsOneKey (suc n) (String.◌∷◌ c s) k e = ground (arith, key_within-IsOneKey n s k)

press_here-IsOneKey : (s : String) → IsOneKey (press_here s)
unfolding press_here
press_here-IsOneKey s = here (after_any press_words s)
  where
    here : (o : Option String) → IsOneKey (elim o [ none ↦ none | some rest ↦ key_within 12 rest ])
    here none k e = ground arith
    here (some rest) k e = key_within-IsOneKey 12 rest k e

first-IsOneKey :
    (o p : Option String)
    → IsOneKey o
    → IsOneKey p
    → IsOneKey (elim o [ some key ↦ some key | none ↦ p ])
first-IsOneKey none p h later = later
first-IsOneKey (some key) p h later = h

press_digit-IsOneKey : (s : String) → IsOneKey (press_digit s)
unfolding press_digit
press_digit-IsOneKey String.[] = λ k e. ground arith
press_digit-IsOneKey (String.◌∷◌ c s) =
    first-IsOneKey (press_here (String.◌∷◌ c s)) (press_digit s)
      (press_here-IsOneKey (String.◌∷◌ c s)) (press_digit-IsOneKey s)

fallback-size : (blob : String) → size (fallback blob).0 ≤ 1
unfolding fallback
fallback-size blob = elim (Option-cases (press_digit blob)) [
  | inl missing ↦
      rw (missing, fallback)
        (if_elim {A = String × String} (λ r. size r.0 ≤ 1) (names_operator false blob)
          (λ e. omega arith) (λ e. omega arith))
  | inr (key, found) ↦
      let one = press_digit-IsOneKey blob key found in rw (found, fallback) (omega arith)
]

read_blob-none : (blob : String) → read_blob (λ text. none) blob ≡ none
unfolding read_blob
read_blob-none blob = elim (Option-cases (from_brace blob)) [
  | inl missing ↦ rw missing refl
  | inr (tail, found) ↦ rw found (elim (Option-cases (to_brace tail)) [
    | inl open_still ↦ rw open_still refl
    | inr (object, closed) ↦ rw closed refl
  ])
]

parse_verdict-fallback : (t : String) → parse_verdict (λ text. none) t ≡ fallback (strip t)
unfolding parse_verdict
parse_verdict-fallback t = rw (read_blob-none (strip t), parse_verdict) refl

size-full : (s : String) → is_empty s ≡ false → 1 ≤ size s
size-full String.[] e = ground arith
size-full (String.◌∷◌ c s) e = omega arith

decide-digits :
    (repr : String → String) (p : String × String) (digits : String)
    → (decide repr p).digits ≡ some digits
    → (p.0 ≡ digits) × (is_empty digits ≡ false)
unfolding decide
decide-digits repr (d, r) digits e = ground arith

-- A reply without a JSON object, whatever it says, makes the client press one key or none.
pub prose_presses_one_key :
    (repr : String → String) (t : String) (m : MenuDecision) (digits : String)
    → choose_digit repr (λ text. none) (some t) ≡ value m
    → m.digits ≡ some digits
    → size digits ≡ 1
unfolding choose_digit
prose_presses_one_key repr t m digits e d =
    let p = parse_verdict (λ text. none) t in
    let told : (decide repr p).digits ≡ some digits = ground arith in
    let (same, full) = decide-digits repr p digits told in
    let few : size p.0 ≤ 1 = rw (parse_verdict-fallback t) (fallback-size (strip t)) in
    let many = size-full digits full in ground (arith, same)
