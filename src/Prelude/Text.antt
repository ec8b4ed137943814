-- ===== src/Prelude/Text.antt =====
-- Texts as Python's `str` reads them, for ASCII.
use Prim.Native.String.{String, ◌++◌}
use Prim.Native.Char.{Char, code}
use Prim.Native.Nat.{ℕ, zero, suc, ◌+◌}
use mathlib.Core.Bool.{Bool, true, false, ◌&&◌, ◌||◌}
use mathlib.Core.Option.{Option, none, some}
use mathlib.Core.List.{List, [], ◌∷◌}
use dial_pass.Prelude.Tests.{leb, ◌==◌, if◌then◌else◌}

abbrev pub is_empty : String → Bool
is_empty String.[] = true
is_empty (String.◌∷◌ c s) = false

-- `len`
abbrev pub size : String → ℕ
size String.[] = 0
size (String.◌∷◌ c s) = suc (size s)

abbrev pub is_space : Char → Bool
is_space c = let n = code c in (leb 9 n && leb n 13) || (leb 28 n && leb n 32)

abbrev pub is_digit : Char → Bool
is_digit c = let n = code c in leb b'0' n && leb n b'9'

-- The letter in lower case.
abbrev pub fold : ℕ → ℕ
fold n = if leb b'A' n && leb n b'Z' then n + 32 else n

-- A letter, a digit or `_`: `\w`.
abbrev pub is_word : Char → Bool
is_word c =
    let n = fold (code c) in (leb b'a' n && leb n b'z') || (leb b'0' n && leb n b'9') || (n == b'_')

unfoldable pub left_strip : String → String
left_strip String.[] = String.[]
left_strip (String.◌∷◌ c s) = let rest = left_strip s in if is_space c then rest else String.◌∷◌ c s

unfoldable pub right_strip : String → String
right_strip String.[] = String.[]
right_strip (String.◌∷◌ c s) =
    let rest = right_strip s in if is_space c && is_empty rest then String.[] else String.◌∷◌ c rest

-- `s.strip()`
unfoldable pub strip : String → String
unfolding left_strip right_strip
strip s = right_strip (left_strip s)

-- `s[:n]`
unfoldable pub prefix : ℕ → String → String
prefix zero s = String.[]
prefix (suc n) String.[] = String.[]
prefix (suc n) (String.◌∷◌ c s) = String.◌∷◌ c (prefix n s)

-- What follows a word at the start of a text, in either case.
unfoldable pub after_word : String → String → Option String
after_word String.[] s = some s
after_word (String.◌∷◌ d w) String.[] = none
after_word (String.◌∷◌ d w) (String.◌∷◌ c s) =
    let rest = after_word w s in if fold (code c) == code d then rest else none

-- What follows the first of some words that starts the text.
unfoldable pub after_any : List String → String → Option String
unfolding after_word
after_any [] s = none
after_any (w ∷ ws) s = elim (after_word w s) [ some rest ↦ some rest | none ↦ after_any ws s ]

-- `"".join(parts)`
abbrev pub concat : List String → String
concat [] = String.[]
concat (p ∷ ps) = p ++ concat ps
