-- ===== src/Executor.antt =====
-- src/dialpass/agent/executor.py: the one slot in which a Tier 2 call runs. `InlineExecutor` has run
-- the call when `submit` returns; `ThreadedExecutor` runs it on a thread, whose end is a step of the
-- environment. A job that is dropped unfinished is counted, where the source logs it.
mod Examples
use dial_pass.Prelude.{
  ℕ, ◌+◌, ◌≡◌, refl, Bool, true, false, Option, none, some, if◌then◌else◌, arith,
}
use dial_pass.Breaker.{Outcome}

pub record InlineExecutor (A : Type 0) : Type 0 where
  pub pending : Option (Outcome A)

-- The thread pool's `Future`, as far as `poll` sees it.
pub data Future (A : Type 0) : Type 0 where
  running : Future A
  finished : Outcome A → Future A

pub record ThreadedExecutor (A : Type 0) : Type 0 where
  pub future : Option (Future A)
  pub dropped : ℕ
  pub shut : Bool

module _ {A : Type 0} where
  abbrev pub is_running : Option (Future A) → Bool
  is_running none = false
  is_running (some running) = true
  is_running (some (finished r)) = false

  -- `InlineExecutor.submit`, on what the call did; a `BaseException` is kept as well.
  unfoldable pub inline_submit : Outcome A → InlineExecutor A → InlineExecutor A
  inline_submit r e = record { pending = some r }

  -- `InlineExecutor.poll`
  unfoldable pub inline_poll : InlineExecutor A → Option (Outcome A) × InlineExecutor A
  inline_poll e = (e.pending, record { pending = none })

  -- `InlineExecutor.close`
  unfoldable pub inline_close : InlineExecutor A → InlineExecutor A
  inline_close e = record { pending = none }

  -- `ThreadedExecutor.submit`. After `close` the pool raises `RuntimeError` and the slot stays as it is;
  -- what its caller makes of that is left out.
  unfoldable pub threaded_submit : ThreadedExecutor A → ThreadedExecutor A
  threaded_submit e =
      let t = (if is_running e.future then record e { dropped = e.dropped + 1 } else e) in
      if t.shut then t else record t { future = some running }

  take_result : Option (Future A) → ThreadedExecutor A → Option (Outcome A) × ThreadedExecutor A
  take_result none e = (none, e)
  take_result (some running) e = (none, e)
  take_result (some (finished r)) e = (some r, record e { future = none })

  -- `ThreadedExecutor.poll`
  unfoldable pub threaded_poll : ThreadedExecutor A → Option (Outcome A) × ThreadedExecutor A
  unfolding take_result
  threaded_poll e = take_result e.future e

  -- `ThreadedExecutor.close`
  unfoldable pub threaded_close : ThreadedExecutor A → ThreadedExecutor A
  threaded_close e = record e { shut = true }

  -- The thread ends: the running call has returned or raised.
  unfoldable pub complete : Option (Outcome A) → ThreadedExecutor A → ThreadedExecutor A
  complete none e = e
  complete (some r) e = if is_running e.future then record e { future = some (finished r) } else e

  -- The inline executor hands a result over once: a second poll gives nothing.
  pub inline-poll_once :
      (r : Outcome A) (e : InlineExecutor A)
      → let (got, e') = inline_poll (inline_submit r e) in
        (got ≡ some r) × ((inline_poll e').0 ≡ none)
  unfolding inline_submit inline_poll
  inline-poll_once r e = (refl, refl)

  -- A call submitted to an empty slot, before `close`, drops no other, is not ready before its thread ends, and then
  -- is handed over once: a second poll gives nothing, and the slot is empty again.
  pub threaded-poll_once :
      (r : Outcome A) (e : ThreadedExecutor A)
      → e.future ≡ none
      → e.shut ≡ false
      → let s = threaded_submit e in
        let (got, e') = threaded_poll (complete (some r) s) in
        ((threaded_poll s).0 ≡ none)
        × (got ≡ some r)
        × ((threaded_poll e').0 ≡ none)
        × (e'.dropped ≡ e.dropped)
        × (e'.future ≡ none)
  unfolding threaded_submit threaded_poll complete
  threaded-poll_once r e idle open_ = ground arith
