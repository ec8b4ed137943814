-- ===== src/Realtime/Feeder.antt =====
-- When the feeder of the probe of stream.py asks for the verdict.
use dial_pass.Prelude.{
  ℕ, zero, suc, ◌≤◌, ◌<◌, ◌≡◌, refl, ap, Bool, true, false, List, [], ◌∷◌, ◌++◌, map, take, length,
  All, arith,
}
use dial_pass.Bridge.{Bytes, frame_size}
use dial_pass.Realtime.Exchange.{append, commit, response_create}
use dial_pass.Realtime.Probe.{feed}

abbrev pub IsFrame : Bytes → Type 0
IsFrame frame = length frame ≡ frame_size

module _ {Seconds : Type 0} (plus : Seconds → ℕ → Seconds) (short : Seconds → Bool) where
  -- The seconds after some frames of 20 ms more.
  abbrev pub after : ℕ → Seconds → Seconds
  after zero drained = drained
  after (suc n) drained = after n (plus drained frame_size)

  -- The seconds fall short up to the n-th frame, and no longer with it.
  abbrev pub Lasts : ℕ → Seconds → Type 0
  Lasts n drained =
      ((k : ℕ) → k < n → short (after k drained) ≡ true) × (short (after n drained) ≡ false)

  Lasts-later :
      (n : ℕ) (drained : Seconds) → Lasts (suc n) drained → Lasts n (plus drained frame_size)
  Lasts-later n drained (before, end) = (λ k lt. before (suc k) (omega arith), end)

  feed-full :
      (n : ℕ) (drained : Seconds) (frames : List Bytes)
      → All IsFrame frames
      → Lasts n drained
      → n ≤ length frames
      → feed plus short drained frames ≡ map append (take n frames) ++ commit ∷ response_create ∷ []
  unfolding feed
  feed-full zero drained [] h (before, end) le = rw end refl
  feed-full zero drained (f ∷ fs) h (before, end) le = rw end refl
  feed-full (suc n) drained [] h l le = absurd (omega arith)
  feed-full (suc n) drained (f ∷ fs) (sized, h) l le =
      rw (l.0 0 (omega arith), sized)
        (ap (λ r. append f ∷ r)
          (feed-full n (plus drained frame_size) fs h (Lasts-later n drained l) (omega arith)))

  feed-waiting :
      (n : ℕ) (drained : Seconds) (frames : List Bytes)
      → All IsFrame frames
      → Lasts n drained
      → length frames < n
      → feed plus short drained frames ≡ map append frames
  unfolding feed
  feed-waiting zero drained frames h l lt = absurd (omega arith)
  feed-waiting (suc n) drained [] h l lt = rw (l.0 0 (omega arith)) refl
  feed-waiting (suc n) drained (f ∷ fs) (sized, h) l lt =
      rw (l.0 0 (omega arith), sized)
        (ap (λ r. append f ∷ r)
          (feed-waiting n (plus drained frame_size) fs h (Lasts-later n drained l) (omega arith)))

  -- On a call that sends frames of 20 ms, where the feeder's seconds last for n frames, it asks for the
  -- verdict as soon as it has sent n frames: with so many frames or more it sends the first of them, the
  -- commit and the request, and nothing else; with fewer it sends them all and still waits.
  pub feed_asks :
      (n : ℕ) (drained : Seconds) (frames : List Bytes)
      → All IsFrame frames
      → Lasts n drained
      → (n ≤ length frames
          → feed plus short drained frames
            ≡ map append (take n frames) ++ commit ∷ response_create ∷ [])
        × (length frames < n → feed plus short drained frames ≡ map append frames)
  feed_asks n drained frames h l = (
    λ enough. feed-full n drained frames h l enough,
    λ few. feed-waiting n drained frames h l few,
  )
