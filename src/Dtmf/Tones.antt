-- ===== src/Dtmf/Tones.antt =====
-- The tones of dtmf.py tell the keys apart.
use dial_pass.Prelude.{ℕ, ◌≡◌, Option, none, some, ◌==◌, if◌then◌else◌, ◌>>=◌, arith}
use dial_pass.Dtmf.{low_table, high_table, tone_of, upper, dtmf_frequencies}

-- The key of a low tone, by the column of its high tone.
abbrev pub column : ℕ → ℕ → ℕ → ℕ → ℕ → ℕ
column high a b c d =
    if high == 1209 then a else if high == 1336 then b else if high == 1477 then c else d

-- How a receiver reads the two tones.
abbrev pub key_of : ℕ × ℕ → ℕ
key_of (low, high) =
    if low == 697
    then column high b'1' b'2' b'3' b'A'
    else if low == 770
    then column high b'4' b'5' b'6' b'B'
    else if low == 852
    then column high b'7' b'8' b'9' b'C'
    else column high b'*' b'0' b'#' b'D'

key_of-tones :
    (key low high : ℕ)
    → tone_of low_table key ≡ some low
    → tone_of high_table key ≡ some high
    → key_of (low, high) ≡ key
unfolding tone_of
key_of-tones key low high l h = ground arith

both_tones :
    (low high : Option ℕ) (tones : ℕ × ℕ)
    → (low >>= λ l. high >>= λ h. some (l, h)) ≡ some tones
    → (low ≡ some tones.0) × (high ≡ some tones.1)
both_tones none high tones e = ground arith
both_tones (some l) none tones e = ground arith
both_tones (some l) (some h) tones e = ground arith

-- A receiver reads the two tones of a key as that key, in upper case.
pub key_of-dtmf_frequencies :
    (digit : ℕ) (tones : ℕ × ℕ) → dtmf_frequencies digit ≡ some tones → key_of tones ≡ upper digit
unfolding dtmf_frequencies
key_of-dtmf_frequencies digit tones h =
    let (l, r) =
      both_tones (tone_of low_table (upper digit)) (tone_of high_table (upper digit)) tones h in
    key_of-tones (upper digit) tones.0 tones.1 l r
