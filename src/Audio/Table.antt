-- ===== src/Audio/Table.antt =====
-- Facts of the 256 codes of audio.py, by evaluation.
use dial_pass.Prelude.{ℕ, ◌≡◌, refl, Bool, true, ◌&&◌, List, [], ◌∷◌, length, ltb, leb, ◌==◌}
use dial_pass.Prelude.Bytes.{holds_throughout}
use dial_pass.Audio.{
  Entry, ulaw_decode, level, levels, search_sorted, entry_at, encode_sample, one_zero,
}

abbrev pub is_ascending : List Entry → Bool
is_ascending [] = true
is_ascending (e ∷ []) = true
is_ascending (e ∷ f ∷ es) = leb e.0 f.0 && is_ascending (f ∷ es)

abbrev pub is_entry : Entry → Bool
is_entry e = level (one_zero e.1) == e.0 && ltb (one_zero e.1) 256

abbrev pub all_entries : List Entry → Bool
all_entries [] = true
all_entries (e ∷ es) = is_entry e && all_entries es

-- The level of each byte is found in the table.
abbrev pub is_found : List Entry → ℕ → Bool
is_found table byte =
    let i = search_sorted table (level byte) in
    (entry_at table i).0 == level byte && ltb i (length table)

abbrev pub comes_back : List Entry → ℕ → Bool
comes_back table byte = encode_sample table (ulaw_decode byte) == one_zero byte

pub levels-ascending : is_ascending levels ≡ true
unfolding levels
levels-ascending = refl

pub levels-entries : all_entries levels ≡ true
unfolding levels
levels-entries = refl

pub bytes_found : holds_throughout (is_found levels) 256 ≡ true
unfolding holds_throughout levels search_sorted
bytes_found = refl

pub bytes_come_back : holds_throughout (comes_back levels) 256 ≡ true
unfolding holds_throughout levels encode_sample
bytes_come_back = refl

pub length-levels : length levels ≡ 256
unfolding levels
length-levels = refl
