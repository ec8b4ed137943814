-- ===== src/Audio.antt =====
-- src/dialpass/telephony/audio.py: G.711 mu-law. A level is compared with a sample by their distances
-- above -32768, which are natural numbers: the level `v` is held as `v + 32768`.
pub mod Table
pub mod Nearest
pub mod Codec
mod Examples
use dial_pass.Prelude.{
  ℕ, zero, suc, ◌+◌, ◌-◌, ◌*◌, ◌/◌, ◌%◌, ◌^◌, min, Bool, true, false, List, [], ◌∷◌, map, length,
  ltb, leb, ◌==◌, if◌then◌else◌,
}
use dial_pass.Prelude.Bytes.{ℤ, pos, negsuc}

abbrev pub Bytes : Type 0
Bytes = List ℕ

-- The size of the level of a byte, by the bits of its complement.
unfoldable pub magnitude : ℕ → ℕ
magnitude byte = let u = 255 - byte in (u % 16 * 8 + 0x84) * 2 ^ (u / 16 % 8) - 0x84

abbrev pub is_negative : ℕ → Bool
is_negative byte = leb 128 (255 - byte)

-- `-n` and `n`.
abbrev pub signed : Bool → ℕ → ℤ
signed true zero = pos 0
signed true (suc n) = negsuc n
signed false n = pos n

-- `_ULAW_DECODE`
unfoldable pub ulaw_decode : ℕ → ℤ
unfolding magnitude
ulaw_decode byte = signed (is_negative byte) (magnitude byte)

-- `ulaw_to_pcm16`
unfoldable pub ulaw_to_pcm16 : Bytes → List ℤ
unfolding ulaw_decode
ulaw_to_pcm16 u = map ulaw_decode u

-- The clip to int16.
abbrev pub clip : ℤ → ℕ
clip (pos n) = min n 32767 + 32768
clip (negsuc n) = 32767 - min n 32767

-- The level of a byte.
unfoldable pub level : ℕ → ℕ
unfolding ulaw_decode
level byte = clip (ulaw_decode byte)

-- A level, and a byte that decodes to it.
abbrev pub Entry : Type 0
Entry = ℕ × ℕ

unfoldable pub insert_entry : Entry → List Entry → List Entry
insert_entry e [] = e ∷ []
insert_entry e (f ∷ fs) =
    let rest = insert_entry e fs in if leb f.0 e.0 then f ∷ rest else e ∷ f ∷ fs

-- The entries of the bytes below a number, sorted by level.
unfoldable pub sort_levels : ℕ → List Entry
unfolding insert_entry level
sort_levels zero = []
sort_levels (suc byte) = insert_entry (level byte, byte) (sort_levels byte)

-- `_LEVELS` with `_LEVEL_TO_BYTE`
unfoldable pub levels : List Entry
unfolding sort_levels
levels = sort_levels 256

-- `np.searchsorted`: how many entries at the front are below the sample.
unfoldable pub search_sorted : List Entry → ℕ → ℕ
search_sorted [] s = 0
search_sorted (e ∷ es) s = let rest = search_sorted es s in if ltb e.0 s then suc rest else 0

abbrev pub entry_at : List Entry → ℕ → Entry
entry_at [] i = (0, 0)
entry_at (e ∷ es) zero = e
entry_at (e ∷ es) (suc i) = entry_at es i

abbrev pub distance : ℕ → ℕ → ℕ
distance a b = if leb a b then b - a else a - b

-- The entry that `pcm16_to_ulaw` takes for a sample from a table.
unfoldable pub choose_entry : List Entry → ℕ → Entry
unfolding search_sorted
choose_entry table s =
    let idx = min (search_sorted table s) (length table - 1) in
    let lo = idx - 1 in
    if leb (distance s (entry_at table lo).0) (distance s (entry_at table idx).0)
    then entry_at table lo
    else entry_at table idx

-- Bytes 0x7F and 0xFF decode to 0 alike.
abbrev pub one_zero : ℕ → ℕ
one_zero byte = if byte == 0x7f then 0xff else byte

-- One sample of `pcm16_to_ulaw`, over a table.
unfoldable pub encode_sample : List Entry → ℤ → ℕ
unfolding choose_entry
encode_sample table s = one_zero (choose_entry table (clip s)).1

-- `pcm16_to_ulaw`
unfoldable pub pcm16_to_ulaw : List ℤ → Bytes
unfolding encode_sample levels
pcm16_to_ulaw samples = map (encode_sample levels) samples
