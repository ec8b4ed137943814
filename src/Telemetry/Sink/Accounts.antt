-- ===== src/Telemetry/Sink/Accounts.antt =====
-- Where the events that were given to sqs_sink.py are.
use dial_pass.Prelude.{
  ℕ, zero, suc, ◌+◌, ◌-◌, ◌≤◌, ◌<◌, ◌≡◌, refl, ap, ◌∙◌, String, Bool, true, false, Option, none,
  some, List, [], ◌∷◌, length, leb, if◌then◌else◌, if_elim, arith, length-append, length-take,
  length-drop, Option-cases, inl, inr,
}
use dial_pass.Telemetry.Sink.{
  SqsSink, new_sink, emit, next_batch, Entry, entries_from, Client, failed_of, is_nil, on_answer,
  attempts, send, pump, drain,
}

-- The events that have been handled: sent, or given up.
abbrev pub handled : SqsSink → ℕ
handled s = s.sent + s.dropped_send

-- The fields that sending leaves alone.
record SameQueue (s t : SqsSink) : Type 0 where
  waiting : t.waiting ≡ s.waiting
  overflow : t.dropped_overflow ≡ s.dropped_overflow
  batch_size : t.batch_size ≡ s.batch_size
  max_queue : t.max_queue ≡ s.max_queue

length-failed_of : (bad : ℕ → Bool) (es : List Entry) → length (failed_of bad es) ≤ length es
unfolding failed_of
length-failed_of bad [] = omega arith
length-failed_of bad ((i, b) ∷ es) = ground (arith, length-failed_of bad es)

nil_length : (es : List Entry) → is_nil es ≡ true → length es ≡ 0
nil_length [] e = refl
nil_length (x ∷ es) e = cc e

length-entries_from : (i : ℕ) (bs : List String) → length (entries_from i bs) ≡ length bs
unfolding entries_from
length-entries_from i [] = refl
length-entries_from i (b ∷ bs) = ap suc (length-entries_from (i + 1) bs)

attempts-counts :
    (fuel n : ℕ) (client : Client) (es : List Entry) (s : SqsSink)
    → let t = attempts fuel n client es s in (handled t ≡ handled s + length es) × SameQueue s t
unfolding attempts on_answer
attempts-counts zero n client es s = (omega arith, ground arith)
attempts-counts (suc fuel) n client es s = elim (Option-cases (client n es)) [
  | inl raised ↦ rw raised (attempts-counts fuel (n + 1) client es s)
  | inr (bad, answer) ↦ rw answer (
      let left : List Entry = failed_of bad es in
      let t : SqsSink = record s { sent = s.sent + (length es - length left) } in
      ground (
        arith,
        length-failed_of bad es,
        nil_length left,
        attempts-counts fuel (n + 1) client left t,
      ))
]

send-counts :
    (client : Client) (bodies : List String) (s : SqsSink)
    → let t = send client bodies s in (handled t ≡ handled s + length bodies) × SameQueue s t
unfolding send
send-counts client bodies s =
    rw (← length-entries_from 0 bodies)
      (attempts-counts s.send_retries 1 client (entries_from 0 bodies) s)

-- A batch is the front of the queue, of ten at most, and empty only if the queue is.
record IsBatch (s : SqsSink) (batch : List String) (t : SqsSink) : Type 0 where
  counted : length s.waiting ≡ length batch + length t.waiting
  progress : 0 < length s.waiting → 0 < length batch
  handled_same : handled t ≡ handled s
  overflow : t.dropped_overflow ≡ s.dropped_overflow
  max_queue : t.max_queue ≡ s.max_queue

next_batch-IsBatch : (s : SqsSink) → IsBatch s (next_batch s).0 (next_batch s).1
unfolding next_batch
next_batch-IsBatch s =
    let n : ℕ = if leb s.batch_size 1 then 1 else s.batch_size in
    let pos : 0 < n = ground arith in
    record {
      counted = omega (arith, length-take n s.waiting, length-drop n s.waiting);
      progress = λ h. omega (arith, length-take n s.waiting, pos);
      handled_same = refl;
      overflow = refl;
      max_queue = refl;
    }

nil_text : (bs : List String) → is_nil bs ≡ true → length bs ≡ 0
nil_text [] e = refl
nil_text (x ∷ bs) e = cc e

some_text : (bs : List String) → is_nil bs ≡ false → 0 < length bs
some_text [] e = cc e
some_text (x ∷ bs) e = omega arith

-- A round of the pump moves a batch from the queue to what is handled.
record Pumped (s t : SqsSink) : Type 0 where
  counted : handled t + length t.waiting ≡ handled s + length s.waiting
  progress : 0 < length s.waiting → length t.waiting < length s.waiting
  shrinks : length t.waiting ≤ length s.waiting
  overflow : t.dropped_overflow ≡ s.dropped_overflow
  max_queue : t.max_queue ≡ s.max_queue

pump-Pumped : (client : Client) (s : SqsSink) → Pumped s (pump client s)
unfolding pump
pump-Pumped client s =
    let bs : List String = (next_batch s).0 in
    let t : SqsSink = (next_batch s).1 in
    let b = next_batch-IsBatch s in
    let (sent_all, same) = send-counts client bs t in
    ground (arith, b, sent_all, same, nil_text bs, some_text bs)

-- What happens to a sink before it is closed: an event is given to it, or the pump runs once.
pub data SinkEvent : Type 0 where
  given : Option String → SinkEvent
  pumped : Client → SinkEvent

unfoldable pub run : List SinkEvent → SqsSink → SqsSink
run [] s = s
run (given body ∷ es) s = run es (emit body s)
run (pumped client ∷ es) s = run es (pump client s)

-- The events that could be serialized.
abbrev pub bodies_given : List SinkEvent → ℕ
bodies_given [] = 0
bodies_given (given (some body) ∷ es) = suc (bodies_given es)
bodies_given (e ∷ es) = bodies_given es

-- The events that the sink knows of.
abbrev pub total : SqsSink → ℕ
total s = handled s + length s.waiting + s.dropped_overflow

emit-total :
    (body : String) (s : SqsSink)
    → (0 < s.max_queue → length s.waiting ≤ s.max_queue)
    → let t = emit (some body) s in
      (total t ≡ suc (total s))
      × (t.max_queue ≡ s.max_queue)
      × (0 < t.max_queue → length t.waiting ≤ t.max_queue)
unfolding emit
emit-total body s fits = ground (arith, length-append s.waiting (body ∷ []))

run-total :
    (es : List SinkEvent) (s : SqsSink)
    → (0 < s.max_queue → length s.waiting ≤ s.max_queue)
    → let t = run es s in
      (total t ≡ total s + bodies_given es)
      × (t.max_queue ≡ s.max_queue)
      × (0 < t.max_queue → length t.waiting ≤ t.max_queue)
unfolding run emit
run-total [] s fits = (omega arith, refl, fits)
run-total (given none ∷ es) s fits = run-total es s fits
run-total (given (some body) ∷ es) s fits =
    let (one, same, still) = emit-total body s fits in
    let (all, kept, bound) = run-total es (emit (some body) s) still in
    (omega (arith, one, all), kept ∙ same, bound)
run-total (pumped client ∷ es) s fits =
    let p = pump-Pumped client s in
    let (all, kept, bound) = run-total es (pump client s) (ground (arith, p)) in
    (omega (arith, p.counted, p.overflow, all), kept ∙ p.max_queue, bound)

drain-empties :
    (fuel : ℕ) (clients : ℕ → Client) (s : SqsSink)
    → length s.waiting ≤ fuel
    → let t = drain fuel clients s in (length t.waiting ≡ 0) × (total t ≡ total s)
unfolding drain
drain-empties zero clients s h = (omega arith, refl)
drain-empties (suc fuel) clients s h =
    if_elim (λ t. (length t.waiting ≡ 0) × (total t ≡ total s)) (is_nil s.waiting)
      (λ e. (nil_text s.waiting e, refl))
      (λ e.
        let p = pump-Pumped (clients fuel) s in
        let shorter : length (pump (clients fuel) s).waiting ≤ fuel =
          ground (arith, p, some_text s.waiting e) in
        let (empty, kept) = drain-empties fuel clients (pump (clients fuel) s) shorter in
        (empty, kept ∙ omega (arith, p.counted, p.overflow)))

-- While a new sink runs, its queue never grows beyond a bound that is not 0, and no event that could
-- be serialized is lost sight of: each is waiting, sent, or counted as dropped. However SQS answers,
-- the final drain, with a round for every event that waits, empties the queue, so that then each is
-- sent or counted as dropped.
pub every_event_counted :
    (max_queue batch_size retries : ℕ) (es : List SinkEvent) (clients : ℕ → Client)
    → let s = run es (new_sink max_queue batch_size retries) in
      let t = drain (length s.waiting) clients s in
      (0 < max_queue → length s.waiting ≤ max_queue)
      × (total s ≡ bodies_given es)
      × (length t.waiting ≡ 0)
      × (t.sent + t.dropped_send + t.dropped_overflow ≡ bodies_given es)
unfolding new_sink
every_event_counted max_queue batch_size retries es clients =
    let s0 : SqsSink = new_sink max_queue batch_size retries in
    let s : SqsSink = run es s0 in
    let (all, kept, bound) = run-total es s0 (λ _. omega arith) in
    let (empty, same) = drain-empties (length s.waiting) clients s (omega arith) in
    (λ pos. ground (arith, kept, bound), omega (arith, all), empty, omega (arith, all, empty, same))
