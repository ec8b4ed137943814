-- ===== src/Audio/Codec.antt =====
-- What encoding and decoding of audio.py keep of a sample and of a byte.
use dial_pass.Prelude.{
  ℕ, zero, suc, ◌-◌, ◌≤◌, ◌<◌, ◌≡◌, refl, ap, min, true, List, [], ◌∷◌, map, length, leb, ◌==◌,
  if_elim, All, arith,
}
use dial_pass.Prelude.Bytes.{ℤ, holds_throughout-at}
use dial_pass.Audio.{
  Bytes, Entry, level, levels, clip, search_sorted, entry_at, distance, choose_entry, encode_sample,
  one_zero, pcm16_to_ulaw, ulaw_to_pcm16, ulaw_decode,
}
use dial_pass.Audio.Table.{
  is_entry, all_entries, is_found, comes_back, levels-ascending, levels-entries, bytes_found,
  bytes_come_back, length-levels,
}
use dial_pass.Audio.Nearest.{choose_entry_nearest}

entry_at-is_entry :
    (es : List Entry) (i : ℕ)
    → all_entries es ≡ true
    → i < length es
    → is_entry (entry_at es i) ≡ true
entry_at-is_entry [] i h lt = absurd (omega arith)
entry_at-is_entry (e ∷ es) zero h lt = ground arith
entry_at-is_entry (e ∷ es) (suc i) h lt = entry_at-is_entry es i (ground arith) (omega arith)

choose_entry-is_entry :
    (es : List Entry) (s : ℕ)
    → all_entries es ≡ true
    → 0 < length es
    → is_entry (choose_entry es s) ≡ true
unfolding choose_entry
choose_entry-is_entry es s h lt =
    let idx = min (search_sorted es s) (length es - 1) in
    if_elim {A = Entry} (λ e. is_entry e ≡ true)
      (leb (distance s (entry_at es (idx - 1)).0) (distance s (entry_at es idx).0))
      (λ near. entry_at-is_entry es (idx - 1) h (omega arith))
      (λ far. entry_at-is_entry es idx h (omega arith))

-- The byte that is taken from the table decodes to the level of its entry.
level-one_zero : (e : Entry) → is_entry e ≡ true → level (one_zero e.1) ≡ e.0
level-one_zero e h = ground arith

one_zero_lt : (e : Entry) → is_entry e ≡ true → one_zero e.1 < 256
one_zero_lt e h = ground arith

levels-choose_entry : (s : ℕ) → is_entry (choose_entry levels s) ≡ true
levels-choose_entry s = choose_entry-is_entry levels s levels-entries (omega (arith, length-levels))

-- The byte that a sample is encoded as is a byte, and no byte decodes to a level that is nearer to
-- the sample, clipped to int16.
pub encode_sample_nearest :
    (s : ℤ) (byte : ℕ)
    → byte < 256
    → (encode_sample levels s < 256)
      × (distance (clip s) (level (encode_sample levels s)) ≤ distance (clip s) (level byte))
unfolding encode_sample
encode_sample_nearest s byte lt =
    let is = levels-choose_entry (clip s) in
    let here = holds_throughout-at (is_found levels) 256 bytes_found lt in
    let i = search_sorted levels (level byte) in
    (
      one_zero_lt (choose_entry levels (clip s)) is,
      ground (
        arith,
        level-one_zero (choose_entry levels (clip s)) is,
        choose_entry_nearest levels (clip s) i levels-ascending,
      ),
    )

eq_eq : (a b : ℕ) → (a == b) ≡ true → a ≡ b
eq_eq a b h = ground arith

-- Decoding bytes to samples and encoding these again gives the same bytes back, but that 0x7F, the
-- second code of the level 0, comes back as 0xFF.
pub pcm16_to_ulaw-ulaw_to_pcm16 :
    (u : Bytes) → All (λ byte. byte < 256) u → pcm16_to_ulaw (ulaw_to_pcm16 u) ≡ map one_zero u
unfolding pcm16_to_ulaw ulaw_to_pcm16
pcm16_to_ulaw-ulaw_to_pcm16 [] h = refl
pcm16_to_ulaw-ulaw_to_pcm16 (byte ∷ u) (lt, h) = rw (pcm16_to_ulaw-ulaw_to_pcm16 u h) (
    ap (λ b. b ∷ map one_zero u)
      (eq_eq (encode_sample levels (ulaw_decode byte)) (one_zero byte)
        (holds_throughout-at (comes_back levels) 256 bytes_come_back lt)))
