-- ===== src/Telephony/Recorder.antt =====
-- src/dialpass/telephony/recorder.py: the samples that the file has, not its format.
use dial_pass.Prelude.{◌≡◌, Bool, true, false, List, [], ◌++◌, if◌then◌else◌, arith, ℕ}
use dial_pass.Prelude.Bytes.{ℤ}

pub record WavRecorder : Type 0 where
  pub sample_rate : ℕ
  pub written : List ℤ
  pub closed : Bool

-- `__init__`
unfoldable pub new_recorder : ℕ → WavRecorder
new_recorder sample_rate = record { sample_rate = sample_rate; written = []; closed = false }

-- `write`
unfoldable pub write : List ℤ → WavRecorder → WavRecorder
write pcm r = if r.closed then r else record r { written = r.written ++ pcm }

-- `close`
unfoldable pub close : WavRecorder → WavRecorder
close r = if r.closed then r else record r { closed = true }

-- A recorder that is closed takes no more samples and stays as it is, and may be closed again.
pub closed_stays :
    (pcm : List ℤ) (r : WavRecorder) → (write pcm (close r) ≡ close r) × (close (close r) ≡ close r)
unfolding write close
closed_stays pcm r = ground arith
