-- ===== src/Session/Windows.antt =====
-- The windows that `feed_audio` of session.py classifies, by the events that it sends.
use dial_pass.Prelude.{
  ℕ, zero, suc, ◌+◌, ◌-◌, ◌*◌, ◌≤◌, ◌<◌, ◌≡◌, refl, ap, ◌∙◌, Bool, true, false, List, [], ◌∷◌, ◌++◌,
  length, ltb, leb, if_elim, if◌then◌else◌, arith,
}
use dial_pass.Buffer.{write}
use dial_pass.Session.{Session, Host, run_tick, interval, tick_loop, skip_ahead, feed_audio}
use dial_pass.Session.Log.{LogLaws}
use dial_pass.Session.Frames.{times, run_tick-times}
use dial_pass.Session.Clock.{SameClock, run_tick-SameClock, feed_audio-clock}

-- The times of some windows from a first one on, latest first.
abbrev pub windows : ℕ → ℕ → ℕ → List ℕ
windows zero first i = []
windows (suc n) first i = (first + n * i) ∷ windows n first i

windows-later :
    (n first i : ℕ) (ts : List ℕ)
    → windows n (first + i) i ++ first ∷ ts ≡ windows (suc n) first i ++ ts
windows-later zero first i ts = ap (λ t. t ∷ ts) (omega arith)
windows-later (suc n) first i ts =
    let here : first + i + n * i ≡ first + suc n * i = grind arith in
    rw here (ap (λ l. (first + suc n * i) ∷ l) (windows-later n first i ts))

module _ {Sample W : Type 0} (host : Host Sample W) (laws : LogLaws host) where
  -- Some windows from a first one on have been classified since, each once, and the clock is at the
  -- next one.
  abbrev pub Classified : ℕ → ℕ → Session Sample W → Session Sample W → Type 0
  Classified first i s t =
      (n : ℕ) × (times host laws t ≡ windows n first i ++ times host laws s)
      × (t.next_classify_at ≡ first + n * i)

  one_more :
      (first i a j : ℕ) (s u t : Session Sample W)
      → a ≡ first + i
      → j ≡ i
      → times host laws u ≡ first ∷ times host laws s
      → Classified a j u t
      → Classified first i s t
  one_more first i a j s u t at every once (n, heard, next) = (
    suc n,
    heard ∙ rw (every, at, once) (windows-later n first i (times host laws s)),
    next ∙ rw (every, at) (grind arith),
  )

  tick_loop-Classified :
      (fuel : ℕ) (s : Session Sample W)
      → Classified s.next_classify_at (interval host s) s (tick_loop host fuel s)
  unfolding tick_loop
  tick_loop-Classified zero s = (0, refl, omega arith)
  tick_loop-Classified (suc fuel) s =
      let first : ℕ = s.next_classify_at in
      let i : ℕ = interval host s in
      let t : Session Sample W = run_tick host first s in
      let u : Session Sample W = record t { next_classify_at = t.next_classify_at + i } in
      let same : SameClock s t = run_tick-SameClock host first s in
      let at : u.next_classify_at ≡ first + i = ap (λ k. k + i) same.next in
      let every : interval host u ≡ i = ap (λ k. k.classifier_interval_ms * 8) same.settings in
      let once : times host laws u ≡ first ∷ times host laws s = run_tick-times host laws first s in
      let here : Classified u.next_classify_at (interval host u) u u = (0, refl, omega arith) in
      let step : (v : Session Sample W)
          → Classified u.next_classify_at (interval host u) u v
          → Classified first i s v =
        λ v. one_more first i u.next_classify_at (interval host u) s u v at every once in
      let rest : Session Sample W = (if u.finished then u else tick_loop host fuel u) in
      if_elim {A = Session Sample W} (Classified first i s) (leb first s.samples_seen) {x = rest}
        {y = s}
        (λ _.
          if_elim {A = Session Sample W} (Classified first i s) u.finished (λ _. step u here)
            (λ _. step (tick_loop host fuel u) (tick_loop-Classified fuel u)))
        (λ _. (0, refl, omega arith))

  -- The window that `feed_audio` goes on from: the one that was due next, or, where the audio has got
  -- more than three windows ahead of it, one that is a window behind the audio.
  abbrev pub resumed : ℕ → ℕ → ℕ → ℕ
  resumed next i seen = if ltb (next + 3 * i) seen then seen - i else next

  -- The loop of a session that has only more audio, and perhaps another clock.
  loop_from :
      (s a : Session Sample W) (first later : ℕ) (b : Bool)
      → a.world ≡ s.world
      → interval host a ≡ interval host s
      → let t =
          (if b
            then record a { next_classify_at = first }
            else record a { next_classify_at = later }) in
        Classified (if b then first else later) (interval host s) s (tick_loop host 4 t)
  loop_from s a first later true same every =
      rw (← every, ← same) (tick_loop-Classified 4 (record a { next_classify_at = first }))
  loop_from s a first later false same every =
      rw (← every, ← same) (tick_loop-Classified 4 (record a { next_classify_at = later }))

  classified :
      (pcm : List Sample) (s : Session Sample W)
      → s.finished ≡ false
      → let i = interval host s in
        Classified
          (resumed s.next_classify_at i (s.samples_seen + length pcm))
          i
          s
          (feed_audio host pcm s)
  unfolding feed_audio skip_ahead
  classified pcm s live =
      let i : ℕ = interval host s in
      let a : Session Sample W = record s {
        buffer = write pcm s.buffer;
        samples_seen = s.samples_seen + length pcm;
      } in
      if_elim {A = Session Sample W} (Classified (resumed s.next_classify_at i a.samples_seen) i s)
        s.finished (λ over. cc (over, live))
        (λ _.
          loop_from s a (a.samples_seen - i) s.next_classify_at
            (ltb (s.next_classify_at + 3 * i) a.samples_seen) refl refl)

  -- With a positive interval, and a clock no more than one window past the audio, `feed_audio` on a
  -- live session counts every sample. It sends one `FrameClassified` for each window, in their order,
  -- from the one that was due next or, where the audio has got more than three windows ahead of it,
  -- from the one a window behind the audio, up to the clock. It comes back finished or with the clock
  -- past the audio, and by no more than one window.
  pub feed_audio-caught_up :
      (pcm : List Sample) (s : Session Sample W)
      → 0 < s.settings.classifier_interval_ms
      → s.finished ≡ false
      → s.next_classify_at ≤ s.samples_seen + interval host s
      → let t = feed_audio host pcm s in
        let i = interval host s in
        let seen = s.samples_seen + length pcm in
        (t.samples_seen ≡ seen)
        × Classified (resumed s.next_classify_at i seen) i s t
        × (t.next_classify_at ≤ seen + i)
        × (t.finished ≡ false → seen < t.next_classify_at)
  feed_audio-caught_up pcm s pos live near =
      let (count, close, past) = feed_audio-clock host pcm s pos live near in
      (count, classified pcm s live, rw (← count) close, λ e. rw (← count) (past e))
