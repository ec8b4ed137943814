-- ===== src/Buffer.antt =====
-- src/dialpass/agent/buffer.py: the last seconds of call audio. Samples are of any type; every caller
-- writes int16 samples, so the cast to int16 is left out.
pub mod Window
mod Examples
use dial_pass.Prelude.{ℕ, ◌*◌, ◌-◌, ◌/◌, List, [], ◌++◌, length, drop, ◌==◌, if◌then◌else◌}

module _ {ℓ} {A : Type ℓ} where
  -- The slice `xs[-n:]`, which is all of `xs` at n = 0.
  unfoldable pub from_end : ℕ → List A → List A
  from_end n xs = if n == 0 then xs else drop (length xs - n) xs

pub record RollingBuffer (A : Type 0) : Type 0 where
  pub capacity : ℕ
  pub rate : ℕ
  pub samples : List A

module _ {A : Type 0} where
  -- `__init__`
  unfoldable pub new_buffer : ℕ → ℕ → RollingBuffer A
  new_buffer seconds sample_rate = record {
    capacity = seconds * sample_rate;
    rate = sample_rate;
    samples = [];
  }

  unfoldable pub write : List A → RollingBuffer A → RollingBuffer A
  write pcm b = record b { samples = from_end b.capacity (b.samples ++ pcm) }

  unfoldable pub tail : ℕ → RollingBuffer A → List A
  tail ms b = from_end (b.rate * ms / 1000) b.samples

  abbrev pub snapshot : RollingBuffer A → List A
  snapshot b = b.samples

  -- `__len__`
  abbrev pub held : RollingBuffer A → ℕ
  held b = length b.samples
