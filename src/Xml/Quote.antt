-- ===== src/Xml/Quote.antt =====
-- `escape` and `quoteattr` of Python's xml.sax.saxutils, as src/dialpass/telephony/twiml.py uses them,
-- and how a value is read back by the rules of XML. A text is the list of its code points.
use Prim.Native.String.{String}
use Prim.Native.Char.{code}
use dial_pass.Prelude.{
  ℕ, Bool, true, false, ◌&&◌, ◌||◌, Option, none, some, List, [], ◌∷◌, ◌++◌, ◌==◌, if◌then◌else◌,
}

abbrev pub Text : Type 0
Text = List ℕ

abbrev pub points : String → Text
points String.[] = []
points (String.◌∷◌ c s) = code c ∷ points s

abbrev pub occurs : ℕ → Text → Bool
occurs c [] = false
occurs c (d ∷ s) = d == c || occurs c s

-- The entity of a character in the text of an element.
abbrev pub entity : ℕ → Text
entity c =
    if c == b'&'
    then points "&amp;"
    else if c == b'>'
    then points "&gt;"
    else if c == b'<'
    then points "&lt;"
    else c ∷ []

unfoldable pub escape : Text → Text
escape [] = []
escape (c ∷ s) = entity c ++ escape s

-- In the value of an attribute; the flag tells if double quotes are replaced.
abbrev pub value_entity : Bool → ℕ → Text
value_entity quotes c =
    if c == b'&'
    then points "&amp;"
    else if c == b'>'
    then points "&gt;"
    else if c == b'<'
    then points "&lt;"
    else if c == 10
    then points "&#10;"
    else if c == 13
    then points "&#13;"
    else if c == 9
    then points "&#9;"
    else if quotes && c == b'"'
    then points "&quot;"
    else c ∷ []

unfoldable pub escape_value : Bool → Text → Text
escape_value quotes [] = []
escape_value quotes (c ∷ s) = value_entity quotes c ++ escape_value quotes s

-- A value between two marks, with what follows.
abbrev pub between : ℕ → Text → Text → Text
between mark s rest = mark ∷ (s ++ mark ∷ rest)

-- `quoteattr`, followed by a text.
unfoldable pub quoted : Text → Text → Text
unfolding escape_value
quoted s rest =
    if occurs b'"' s
    then if occurs b'\'' s
      then between b'"' (escape_value true s) rest
      else between b'\'' (escape_value false s) rest
    else between b'"' (escape_value false s) rest

abbrev pub same : Text → Text → Bool
same [] [] = true
same [] (d ∷ t) = false
same (c ∷ s) [] = false
same (c ∷ s) (d ∷ t) = c == d && same s t

-- The character that an entity stands for.
abbrev pub entity_value : Text → Option ℕ
entity_value name =
    if same name (points "amp")
    then some b'&'
    else if same name (points "gt")
    then some b'>'
    else if same name (points "lt")
    then some b'<'
    else if same name (points "quot")
    then some b'"'
    else if same name (points "#10")
    then some 10
    else if same name (points "#13")
    then some 13
    else if same name (points "#9")
    then some 9
    else none

-- A blank of a value is read as a space.
abbrev pub normal : ℕ → ℕ
normal c = if c == 10 || (c == 13 || c == 9) then 32 else c

abbrev pub read_more : Option ℕ → Option (Text × Text) → Option (Text × Text)
read_more none r = none
read_more (some c) none = none
read_more (some c) (some (v, rest)) = some (c ∷ v, rest)

-- The value up to its end mark, and what follows; within an entity, its name so far.
unfoldable pub read_value : ℕ → Option Text → Text → Option (Text × Text)
read_value mark name [] = none
read_value mark none (c ∷ s) =
    let named = read_value mark (some []) s in
    let plain = read_value mark none s in
    if c == mark
    then some ([], s)
    else if c == b'&'
    then named
    else if c == b'<'
    then none
    else read_more (some (normal c)) plain
read_value mark (some name) (c ∷ s) =
    let named = read_value mark (some (name ++ c ∷ [])) s in
    let plain = read_value mark none s in
    if c == b';' then read_more (entity_value name) plain else named

-- A value in quotes of either kind.
unfoldable pub read_attribute : Text → Option (Text × Text)
unfolding read_value
read_attribute [] = none
read_attribute (c ∷ s) =
    let rest = read_value c none s in if c == b'"' || c == b'\'' then rest else none
