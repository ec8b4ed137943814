-- ===== src/Session/Examples.antt =====
-- Runs of a session over the threaded executor, as in tests/test_session.py. A sample is a number, of
-- which 0 sounds like hold music and any other like a dead line.
use dial_pass.Prelude.{
  ℕ, zero, suc, ◌+◌, ◌≤◌, ◌<◌, ◌≡◌, ◌⊎◌, refl, true, false, Option, none, some, List, [], ◌∷◌,
  arith,
}
use dial_pass.Labels.{Label, index}
use dial_pass.Buffer.{tail, from_end}
use dial_pass.Fsm.{observe, streak_for, CallState, default_config, state_index}
use dial_pass.Breaker.{Error, Outcome, value, raised}
use dial_pass.Executor.{running, threaded_close}
use dial_pass.Tier2.{ProbeOutcome, Answer, verdict}
use dial_pass.Telemetry.Events.{probe}
use dial_pass.Session.{
  Frame, Classification, Settings, underway, Session, Host, new_session, feed_audio, poll_tier2,
  run_tick, observe_frame, dispatch, emit_state_change, emit, fail,
}
use dial_pass.Session.Log.{completions, failures}
use dial_pass.Session.Windows.{Classified, feed_audio-caught_up}
use dial_pass.Session.Errors.{poll_raised, failed_world}
use dial_pass.Session.Live.{
  poll_line, Line, live_host, live_log_laws, fresh_line, feed_all, never_drops,
}
use dial_pass.Session.Endings.{Input, audio, hang_up, run, call_ends_one_way, fails_twice}

abbrev settings : Settings
settings = record {
  classifier_interval_ms = 1;
  buffer_seconds = 30;
  classify_window_ms = 1;
  menu_collect_s = 8;
}

abbrev label_of : List ℕ → Label
label_of [] = Label.silence
label_of (zero ∷ xs) = Label.hold_music
label_of (suc x ∷ xs) = Label.error_tone

abbrev classify : Frame ℕ → Classification
classify f = record { label = label_of f.pcm; confidence = 900 }

abbrev host : Host ℕ Line
host = live_host classify (λ d. false) underway

abbrev start : List (Option (Outcome Answer)) → Session ℕ Line
start schedule = new_session host "CA1" settings default_config none (fresh_line schedule)

abbrev dead_line : List (Input ℕ)
dead_line = audio (1 ∷ []) ∷ audio (1 ∷ []) ∷ hang_up "user_left" ∷ []

never_drops_example :
    (feed_all classify
      (λ d. false)
      underway
      ((1 ∷ []) ∷ (0 ∷ []) ∷ [])
      (start [])).world.executor.dropped
    ≡ 0
never_drops_example =
    never_drops classify (λ d. false) underway "CA1" settings default_config none []
      ((1 ∷ []) ∷ (0 ∷ []) ∷ [])

call_ends_one_way_example :
    let s = run host dead_line (start []) in
    let won = completions s.world.events in
    let lost = failures s.world.events in
    (s.finished ≡ false → (won ≡ 0) × (lost ≡ 0))
    × (s.finished ≡ true → ((won ≡ 1) × (lost ≡ 0)) ⊎ ((won ≡ 0) × (1 ≤ lost) × (lost ≤ 2)))
unfolding live_log_laws
call_ends_one_way_example =
    call_ends_one_way host (live_log_laws classify (λ d. false) underway) "CA1" settings
      default_config none (fresh_line []) dead_line refl

abbrev over : Session ℕ Line
over = record (start []) { finished = true }

feed_audio-caught_up_example :
    let t = feed_audio host (1 ∷ 1 ∷ []) (start []) in
    (t.samples_seen ≡ 2)
    × Classified host (live_log_laws classify (λ d. false) underway) 0 8 (start []) t
    × (t.next_classify_at ≤ 2 + 8)
    × (t.finished ≡ false → 2 < t.next_classify_at)
unfolding new_session
feed_audio-caught_up_example =
    feed_audio-caught_up host (live_log_laws classify (λ d. false) underway) (1 ∷ 1 ∷ []) (start [])
      (omega arith) refl (omega arith)

-- A probe that has raised, on the executor's schedule.
abbrev probing : List (Option (Outcome Answer)) → Session ℕ Line
probing schedule =
    let s = start schedule in
    record s {
      tier2_kind = some probe;
      fsm = record (s.fsm) {
        state = CallState.evaluating_speech;
        streak_label = some Label.error_tone;
        streak = 1;
      };
      world = record (s.world) {
        executor = record { future = some running; dropped = 0; shut = false };
      };
    }

abbrev raising : Session ℕ Line
raising = probing (some (raised Error.tier2_unavailable) ∷ [])

poll_raised_example : poll_tier2 host 80 raising ≡ record raising {
  tier2_kind = none;
  finished = true;
  world = failed_world host "CA1" 80 "tier2_unavailable" (poll_line raising.world).1;
}
unfolding new_session poll_line
poll_raised_example = poll_raised host Error.tier2_unavailable probe 80 raising refl refl

abbrev heard_human : ProbeOutcome
heard_human = record { is_human = true; transcript = "Hello?"; healthy = true }

abbrev judged : Session ℕ Line
judged = probing (some (value (verdict heard_human)) ∷ [])

abbrev failing : Session ℕ Line
failing =
    let s = raising in
    record s { buffer = record (s.buffer) { samples = 1 ∷ 1 ∷ 1 ∷ 1 ∷ 1 ∷ 1 ∷ 1 ∷ 1 ∷ [] } }

failing_polls :
    (host.poll (observe_frame host 80 failing).world).0 ≡ some (raised Error.tier2_unavailable)
unfolding new_session observe_frame dispatch emit_state_change emit observe streak_for index tail
    from_end poll_line state_index fail threaded_close
failing_polls = refl

fails_twice_example : failures (run_tick host 80 failing).world.events ≡ 2
unfolding new_session observe streak_for index tail from_end live_log_laws
fails_twice_example =
    fails_twice host (live_log_laws classify (λ d. false) underway) 80 failing refl refl refl
      failing_polls
