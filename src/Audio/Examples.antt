-- ===== src/Audio/Examples.antt =====
-- Runs of audio.py on concrete samples.
use dial_pass.Prelude.{◌≤◌, ◌<◌, ◌≡◌, refl, [], ◌∷◌, map, arith}
use dial_pass.Prelude.Bytes.{pos, negsuc}
use dial_pass.Audio.{
  level, levels, clip, distance, encode_sample, one_zero, pcm16_to_ulaw, ulaw_to_pcm16,
}
use dial_pass.Audio.Codec.{encode_sample_nearest, pcm16_to_ulaw-ulaw_to_pcm16}

silence : pcm16_to_ulaw (pos 0 ∷ pos 40000 ∷ negsuc 7 ∷ []) ≡ 255 ∷ 128 ∷ 126 ∷ []
unfolding pcm16_to_ulaw
silence = refl

encode_sample_nearest_example :
    (encode_sample levels (negsuc 1000) < 256)
    × (distance (clip (negsuc 1000)) (level (encode_sample levels (negsuc 1000)))
        ≤ distance (clip (negsuc 1000)) (level 80))
encode_sample_nearest_example = encode_sample_nearest (negsuc 1000) 80 (omega arith)

pcm16_to_ulaw-ulaw_to_pcm16_example :
    pcm16_to_ulaw (ulaw_to_pcm16 (127 ∷ 0 ∷ [])) ≡ map one_zero (127 ∷ 0 ∷ [])
pcm16_to_ulaw-ulaw_to_pcm16_example =
    pcm16_to_ulaw-ulaw_to_pcm16 (127 ∷ 0 ∷ []) (omega arith, (omega arith, tt))
