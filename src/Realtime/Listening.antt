-- ===== src/Realtime/Listening.antt =====
-- What the probe of stream.py may conclude, and what it plays.
use dial_pass.Prelude.{
  ◌≡◌, refl, String, Bool, true, false, not, ◌&&◌, Option, none, some, List, [], ◌∷◌, if_elim,
  Bool-cases, Option-cases, inl, inr, arith,
}
use dial_pass.Prelude.Text.{concat}
use dial_pass.Audio.{Bytes}
use dial_pass.Breaker.{Error, Outcome, value, raised}
use dial_pass.Tier2.{ProbeOutcome}
use dial_pass.Realtime.Exchange.{Event}
use dial_pass.Realtime.Verdict.{find_verdict, verdict_from_text, is_human_verdict}
use dial_pass.Realtime.Probe.{
  Arrival, event, unreachable, crash, Progress, started, has_verdict, conclude, unavailable,
  is_error, take_event, probe_loop,
}

-- A human only by a verdict in the text, and unwell only without a verdict.
abbrev pub IsGrounded : ProbeOutcome → Progress → Type 0
IsGrounded o p =
    (o.is_human ≡ true → (find_verdict (concat p.texts) ≡ some true) × (o.healthy ≡ true))
    × (o.healthy ≡ false → (has_verdict p ≡ false) × (o.is_human ≡ false))

abbrev pub IsSound : Outcome ProbeOutcome × Progress → Type 0
IsSound r = (o : ProbeOutcome) → r.0 ≡ value o → IsGrounded o r.1

human-verdict : (v : Option Bool) → is_human_verdict v ≡ true → v ≡ some true
human-verdict none h = ground arith
human-verdict (some b) h = ground arith

verdict-IsGrounded : (p : Progress) → IsGrounded (verdict_from_text (concat p.texts)) p
unfolding verdict_from_text
verdict-IsGrounded p =
    (λ e. (human-verdict (find_verdict (concat p.texts)) e, refl), λ e. ground arith)

conclude-IsGrounded : (errored : Bool) (p : Progress) → IsGrounded (conclude errored p) p
unfolding conclude
conclude-IsGrounded errored p =
    if_elim {A = ProbeOutcome} (λ o. IsGrounded o p) (errored && not (has_verdict p))
      (λ failed. (λ e. ground arith, λ e. (ground arith, refl))) (λ read. verdict-IsGrounded p)

unavailable-IsGrounded : (p : Progress) → has_verdict p ≡ false → IsGrounded unavailable p
unavailable-IsGrounded p no_verdict = (λ e. ground arith, λ e. (no_verdict, refl))

value-IsSound : (r : ProbeOutcome) (p : Progress) → IsGrounded r p → IsSound (value r, p)
value-IsSound r p g o e = let same : r ≡ o = ground arith in rw (← same) g

raised-IsSound : (error : Error) (p : Progress) → IsSound (raised error, p)
raised-IsSound error p o e = ground arith

started-no_verdict : has_verdict started ≡ false
unfolding has_verdict find_verdict
started-no_verdict = refl

module _ (decoded : String → Option Bytes) where
  probe_loop-IsSound :
      (arrived : List Arrival) (p : Progress)
      → has_verdict p ≡ false
      → IsSound (probe_loop decoded arrived p)
  unfolding probe_loop
  probe_loop-IsSound [] p h = value-IsSound (conclude false p) p (conclude-IsGrounded false p)
  probe_loop-IsSound (unreachable ∷ later) p h =
      value-IsSound unavailable p (unavailable-IsGrounded p h)
  probe_loop-IsSound (crash error ∷ later) p h = raised-IsSound error p
  probe_loop-IsSound (event x ∷ later) p h =
      if_elim {A = Outcome ProbeOutcome × Progress} IsSound (is_error x)
        (λ failed. value-IsSound (conclude true p) p (conclude-IsGrounded true p))
        (λ fine. elim (Option-cases (take_event decoded x p)) [
          | inl none_taken ↦ rw none_taken (raised-IsSound Error.other_error p)
          | inr (q, taken) ↦ rw taken (elim (Bool-cases (has_verdict q)) [
            | inl read ↦ rw read (value-IsSound (conclude false q) q (conclude-IsGrounded false q))
            | inr open_yet ↦ rw open_yet (probe_loop-IsSound later q open_yet)
          ])
        ])

  -- Whatever arrives on the socket of the probe, it finds a human only if the text that it heard has
  -- the verdict of a human, and it is well then; and if it is not well, the text has no verdict and
  -- it finds no human.
  pub probe_loop-IsGrounded :
      (arrived : List Arrival) (o : ProbeOutcome)
      → (probe_loop decoded arrived started).0 ≡ value o
      → IsGrounded o (probe_loop decoded arrived started).1
  probe_loop-IsGrounded arrived o e = probe_loop-IsSound arrived started started-no_verdict o e

  take_event-judging :
      (x : Event) (p q : Progress)
      → p.judging ≡ true
      → take_event decoded x p ≡ some q
      → (q.judging ≡ true) × (q.played ≡ p.played)
  unfolding take_event
  take_event-judging x p q j e = ground arith

  -- Once the model has begun to write its verdict, nothing more is played into the call.
  pub probe_loop-judging :
      (arrived : List Arrival) (p : Progress)
      → p.judging ≡ true
      → (probe_loop decoded arrived p).1.played ≡ p.played
  unfolding probe_loop
  probe_loop-judging [] p j = refl
  probe_loop-judging (unreachable ∷ later) p j = refl
  probe_loop-judging (crash error ∷ later) p j = refl
  probe_loop-judging (event x ∷ later) p j =
      if_elim {A = Outcome ProbeOutcome × Progress} (λ r. r.1.played ≡ p.played) (is_error x)
        (λ failed. refl)
        (λ fine. elim (Option-cases (take_event decoded x p)) [
          | inl none_taken ↦ rw none_taken refl
          | inr (q, taken) ↦
              let (still, same) = take_event-judging x p q j taken in
              rw taken (elim (Bool-cases (has_verdict q)) [
                | inl read ↦ rw read same
                | inr open_yet ↦ rw open_yet (rw (probe_loop-judging later q still) same)
              ])
        ])
