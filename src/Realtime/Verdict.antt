-- ===== src/Realtime/Verdict.antt =====
-- `verdict_from_text` of src/dialpass/realtime/stream.py. A text is ASCII.
use Prim.Native.Char.{Char, code}
use dial_pass.Prelude.{
  String, Bool, true, false, ◌||◌, Option, none, some, ◌==◌, ℕ, if◌then◌else◌, ◌>>=◌,
}
use dial_pass.Prelude.Text.{is_space, strip, prefix, after_word}
use dial_pass.Tier2.{ProbeOutcome}

-- `[:\s]+` or `[\s-]+`, by the character that stands beside the spaces.
abbrev pub is_gap : ℕ → Char → Bool
is_gap mark c = code c == mark || is_space c

-- What follows all the characters of a gap.
unfoldable pub skip_gap : ℕ → String → String
skip_gap mark String.[] = String.[]
skip_gap mark (String.◌∷◌ c s) =
    let rest = skip_gap mark s in if is_gap mark c then rest else String.◌∷◌ c s

-- What follows a gap of at least one character.
unfoldable pub after_gap : ℕ → String → Option String
unfolding skip_gap
after_gap mark String.[] = none
after_gap mark (String.◌∷◌ c s) = if is_gap mark c then some (skip_gap mark s) else none

-- `NOT[\s-]+HUMAN`
unfoldable pub after_not_human : String → Option String
unfolding after_word after_gap
after_not_human s = do
  tail ← after_word "not" s
  word ← after_gap b'-' tail
  after_word "human" word

-- `(NOT[\s-]+HUMAN|HUMAN)`: tells if it is the latter.
unfoldable pub verdict_word : String → Option Bool
unfolding after_not_human
verdict_word s = elim (after_not_human s) [
  | some rest ↦ some false
  | none ↦ elim (after_word "human" s) [ some rest ↦ some true | none ↦ none ]
]

-- `_VERDICT` at the start of a text; no word of it can begin within a gap, so that no shorter gap
-- would match where the longest does not.
unfoldable pub verdict_here : String → Option Bool
unfolding after_gap verdict_word
verdict_here s = do tail ← after_word "verdict" s; word ← after_gap b':' tail; verdict_word word

-- `_VERDICT.search`, with the test of the group that it found.
unfoldable pub find_verdict : String → Option Bool
unfolding verdict_here
find_verdict String.[] = none
find_verdict (String.◌∷◌ c s) =
    let rest = find_verdict s in
    elim (verdict_here (String.◌∷◌ c s)) [ some human ↦ some human | none ↦ rest ]

abbrev pub is_human_verdict : Option Bool → Bool
is_human_verdict none = false
is_human_verdict (some human) = human

-- `verdict_from_text`
unfoldable pub verdict_from_text : String → ProbeOutcome
unfolding find_verdict strip prefix
verdict_from_text text = record {
  is_human = is_human_verdict (find_verdict text);
  transcript = prefix 200 (strip text);
  healthy = true;
}
