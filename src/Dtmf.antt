-- ===== src/Dtmf.antt =====
-- src/dialpass/telephony/dtmf.py: the two tones of a key. The waveform, which is floating-point signal
-- processing, is a parameter. A key is its code point.
pub mod Tones
mod Examples
use Prim.Native.String
use Prim.Native.Char.{Char, code}
use dial_pass.Prelude.{
  ℕ, ◌-◌, String, Bool, ◌&&◌, Option, none, some, List, [], ◌∷◌, ◌++◌, leb, ◌==◌, if◌then◌else◌,
  ◌>>=◌,
}
use dial_pass.Prelude.Text.{is_space}

-- `_LOW`
abbrev pub low_table : List (ℕ × ℕ)
low_table =
    (b'1', 697)
    ∷ (b'2', 697)
    ∷ (b'3', 697)
    ∷ (b'A', 697)
    ∷ (b'4', 770)
    ∷ (b'5', 770)
    ∷ (b'6', 770)
    ∷ (b'B', 770)
    ∷ (b'7', 852)
    ∷ (b'8', 852)
    ∷ (b'9', 852)
    ∷ (b'C', 852)
    ∷ (b'*', 941)
    ∷ (b'0', 941)
    ∷ (b'#', 941)
    ∷ (b'D', 941)
    ∷ []

-- `_HIGH`
abbrev pub high_table : List (ℕ × ℕ)
high_table =
    (b'1', 1209)
    ∷ (b'2', 1336)
    ∷ (b'3', 1477)
    ∷ (b'A', 1633)
    ∷ (b'4', 1209)
    ∷ (b'5', 1336)
    ∷ (b'6', 1477)
    ∷ (b'B', 1633)
    ∷ (b'7', 1209)
    ∷ (b'8', 1336)
    ∷ (b'9', 1477)
    ∷ (b'C', 1633)
    ∷ (b'*', 1209)
    ∷ (b'0', 1336)
    ∷ (b'#', 1477)
    ∷ (b'D', 1633)
    ∷ []

unfoldable pub tone_of : List (ℕ × ℕ) → ℕ → Option ℕ
tone_of [] key = none
tone_of ((k, hz) ∷ table) key = let rest = tone_of table key in if k == key then some hz else rest

-- `digit.upper()`
abbrev pub upper : ℕ → ℕ
upper c = if leb b'a' c && leb c b'z' then c - 32 else c

-- `dtmf_frequencies`, `none` where it raises.
unfoldable pub dtmf_frequencies : ℕ → Option (ℕ × ℕ)
unfolding tone_of
dtmf_frequencies digit = do
  low ← tone_of low_table (upper digit)
  high ← tone_of high_table (upper digit)
  some (low, high)

module _ {Sample : Type 0} (tone : ℕ → ℕ → List Sample) where
  -- `dtmf_tone`
  unfoldable pub dtmf_tone : ℕ → Option (List Sample)
  unfolding dtmf_frequencies
  dtmf_tone digit = do hz ← dtmf_frequencies digit; some (tone hz.0 hz.1)

  -- `dtmf_sequence`
  unfoldable pub dtmf_sequence : String → Option (List Sample)
  unfolding dtmf_tone
  dtmf_sequence String.[] = some []
  dtmf_sequence (String.◌∷◌ c s) =
      let rest = dtmf_sequence s in
      if is_space c then rest else do part ← dtmf_tone (code c); parts ← rest; some (part ++ parts)
