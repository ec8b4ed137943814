-- ===== src/Dtmf/Examples.antt =====
-- Tones, as in tests/test_dtmf.py.
use dial_pass.Prelude.{◌≡◌, refl, none, some}
use dial_pass.Dtmf.{dtmf_frequencies}

five : dtmf_frequencies b'5' ≡ some (770, 1336)
unfolding dtmf_frequencies
five = refl

no_key : dtmf_frequencies b'x' ≡ none
unfolding dtmf_frequencies
no_key = refl
