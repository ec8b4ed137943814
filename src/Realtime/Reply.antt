-- ===== src/Realtime/Reply.antt =====
-- How `_parse_verdict` of src/dialpass/realtime/client.py reads the model's reply. A text is ASCII.
use Prim.Native.Char.{Char, code}
use dial_pass.Prelude.{
  ℕ, zero, suc, String, Bool, false, not, ◌&&◌, ◌||◌, Option, none, some, List, [], ◌∷◌, ◌==◌,
  if◌then◌else◌, ◌>>=◌,
}
use dial_pass.Prelude.Text.{is_empty, is_digit, is_word, strip, prefix, after_any}

abbrev pub press_words : List String
press_words = "press" ∷ "dial" ∷ "key" ∷ "option" ∷ "choose" ∷ "select" ∷ []

abbrev pub is_press_key : Char → Bool
is_press_key c = is_digit c || (code c == b'*' || code c == b'#')

-- `\D{0,n}?([0-9*#])`
unfoldable pub key_within : ℕ → String → Option String
key_within n String.[] = none
key_within zero (String.◌∷◌ c s) = if is_press_key c then some (String.◌∷◌ c String.[]) else none
key_within (suc n) (String.◌∷◌ c s) =
    let rest = key_within n s in
    if is_press_key c then some (String.◌∷◌ c String.[]) else if is_digit c then none else rest

-- `_PRESS_DIGIT` at the start of a text; no two of its words start alike.
unfoldable pub press_here : String → Option String
unfolding after_any key_within
press_here s = elim (after_any press_words s) [ none ↦ none | some rest ↦ key_within 12 rest ]

-- `_PRESS_DIGIT.search`
unfoldable pub press_digit : String → Option String
unfolding press_here
press_digit String.[] = none
press_digit (String.◌∷◌ c s) =
    let rest = press_digit s in
    elim (press_here (String.◌∷◌ c s)) [ some key ↦ some key | none ↦ rest ]

abbrev pub operator_words : List String
operator_words = "operator" ∷ "representative" ∷ "agent" ∷ "customer service" ∷ "human" ∷ []

abbrev pub starts_word : String → Bool
starts_word String.[] = false
starts_word (String.◌∷◌ c s) = is_word c

-- A whole word at the start of a text that no word character precedes.
unfoldable pub operator_here : String → Bool
unfolding after_any
operator_here s = elim (after_any operator_words s) [
  | none ↦ false
  | some rest ↦ not (starts_word rest)
]

-- `_KEYWORD_TO_OPERATOR.search`; the flag tells if a word character comes before.
unfoldable pub names_operator : Bool → String → Bool
unfolding operator_here
names_operator inside String.[] = false
names_operator inside (String.◌∷◌ c s) =
    let rest = names_operator (is_word c) s in
    (not inside && operator_here (String.◌∷◌ c s)) || rest

-- From the first `{` on.
unfoldable pub from_brace : String → Option String
from_brace String.[] = none
from_brace (String.◌∷◌ c s) =
    let rest = from_brace s in if code c == b'{' then some (String.◌∷◌ c s) else rest

-- Up to the last `}`.
unfoldable pub to_brace : String → Option String
to_brace String.[] = none
to_brace (String.◌∷◌ c s) = elim (to_brace s) [
  | some rest ↦ some (String.◌∷◌ c rest)
  | none ↦ if code c == b'}' then some (String.◌∷◌ c String.[]) else none
]

-- `a or b`
abbrev pub or_else : String → String → String
or_else a b = if is_empty a then b else a

-- Without a JSON object in the reply.
unfoldable pub fallback : String → String × String
unfolding press_digit names_operator
fallback blob = elim (press_digit blob) [
  | some key ↦ (key, prefix 200 blob)
  | none ↦ if names_operator false blob then ("0", prefix 200 blob) else ("", prefix 200 blob)
]

-- `json.loads` of a text, as the texts of its `digit` and `rationale`, `none` where it raises or is
-- no object.
module _ (read_object : String → Option (String × String)) where
  unfoldable pub read_blob : String → Option (String × String)
  unfolding from_brace to_brace
  read_blob blob = do tail ← from_brace blob; object ← to_brace tail; read_object object

  unfoldable pub parse_verdict : String → String × String
  unfolding strip prefix read_blob fallback
  parse_verdict text =
      let blob = strip text in
      elim (read_blob blob) [
        | none ↦ fallback blob
        | some (raw_digit, raw_rationale) ↦
            let digit = strip raw_digit in
            let rationale = strip raw_rationale in
            if is_empty digit && is_empty rationale
            then fallback blob
            else (digit, or_else rationale (prefix 200 blob))
      ]
