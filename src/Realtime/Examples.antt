-- ===== src/Realtime/Examples.antt =====
-- Runs of the client and of the probe, as in tests/test_realtime_client.py and tests/test_stream.py.
use dial_pass.Prelude.{
  ℕ, zero, suc, ◌+◌, ◌*◌, ap, ◌∙◌, ◌==◌, if◌then◌else◌, ◌≤◌, ◌<◌, ◌≡◌, refl, String, true, false,
  Option, none, some, List, [], ◌∷◌, take, length, All, arith, Bool, ltb,
}
use dial_pass.Prelude.Text.{is_empty, size, concat}
use dial_pass.Breaker.{Error, raised}
use dial_pass.Bridge.{Bytes, CallBridge, bind_agent, new_bridge, press_dtmf}
use dial_pass.Tier2.{ProbeOutcome}
use dial_pass.Realtime.Reply.{parse_verdict}
use dial_pass.Realtime.Exchange.{Event, Incoming, message}
use dial_pass.Prelude.Bytes.{pos}
use dial_pass.Realtime.Client.{choose_digit, choose_menu_digit}
use dial_pass.Realtime.Keys.{chosen_digits_pressed}
use dial_pass.Realtime.Phrases.{prose_presses_one_key}
use dial_pass.Realtime.Turn.{error_event, menu_turn_lem}
use dial_pass.Realtime.Verdict.{find_verdict, verdict_from_text}
use dial_pass.Realtime.Probe.{
  Arrival, event, unreachable, Progress, started, probe_loop, take_event, conclude,
}
use Prim.Native.Char.{code}
use dial_pass.Realtime.Documents.{probe_documents, greeting, judge}
use dial_pass.Realtime.Asking.{appended, commits, asked, probe_documents-told}
use dial_pass.Realtime.Heard.{human_verdict_heard}
use dial_pass.Breaker.{new_breaker, call}
use dial_pass.Tier2.Streaming.{probe_streamed}
use dial_pass.Realtime.Feeder.{IsFrame, Lasts, after}

-- No text is a JSON object.
abbrev no_object : String → Option (String × String)
no_object text = none

abbrev an_object : String → Option (String × String)
an_object text = some (" 1#", "the account number")

abbrev plain : String → String
plain text = text

prose_read :
    parse_verdict no_object " For sales, Press the 2 key. " ≡ ("2", "For sales, Press the 2 key.")
unfolding parse_verdict
prose_read = refl

operator_read : parse_verdict no_object "an Agent, please" ≡ ("0", "an Agent, please")
unfolding parse_verdict
operator_read = refl

not_a_word : (parse_verdict no_object "reagents").0 ≡ ""
unfolding parse_verdict
not_a_word = refl

object_read : parse_verdict an_object "so: {...} ok" ≡ ("1#", "the account number")
unfolding parse_verdict
object_read = refl

verdicts :
    (find_verdict "ok verdict: human." ≡ some true)
    × (find_verdict "VERDICT not - HUMAN" ≡ some false)
    × (find_verdict "VERDICTHUMAN" ≡ none)
unfolding find_verdict
verdicts = (refl, refl, refl)

abbrev said : String → String → Event
said kind delta = record { kind = kind; delta = delta; output = [] }

abbrev reply : List Incoming
reply =
    message (said "response.output_text.delta" "press 1") ∷ message (said "response.done" "") ∷ []

abbrev bound : CallBridge
bound = bind_agent "MZagent" true (new_bridge "group")

chosen_digits_pressed_example :
    (is_empty "1" ≡ false)
    × (size "1" ≤ 20)
    × ((press_dtmf "1" 7 bound).redirects ≡ "1" ∷ bound.redirects)
unfolding choose_menu_digit bind_agent
chosen_digits_pressed_example =
    chosen_digits_pressed plain no_object reply
      (record { digits = some "1"; rationale = "press 1" }) "1" "MZagent" 7 bound refl refl refl

abbrev failing : Event
failing = said "error" ""

menu_turn_lem_example :
    let decided =
      choose_menu_digit plain no_object
        (message (said "response.output_text.delta" "press 1") ∷ message failing ∷ []) in
    (decided ≡ choose_digit plain no_object none)
    × (◌≡◌ {A = Option String} none none → decided ≡ raised Error.tier2_unavailable)
menu_turn_lem_example =
    menu_turn_lem plain no_object (said "response.output_text.delta" "press 1" ∷ [])
      (message failing ∷ []) (error_event failing [] refl) (refl, tt)

-- One byte for each character.
abbrev decoded : String → Option Bytes
decoded delta = some (255 ∷ [])

abbrev greeting_then_verdict : List Arrival
greeting_then_verdict =
    event (said "response.output_audio.delta" "/w==")
    ∷ event (said "response.output_text.delta" "VERDICT ")
    ∷ event (said "response.output_audio.delta" "/w==")
    ∷ event (said "response.output_text.delta" "HUMAN")
    ∷ unreachable
    ∷ []

abbrev found_human : ProbeOutcome
found_human = record { is_human = true; transcript = "VERDICT HUMAN"; healthy = true }

greeting_played : (probe_loop decoded greeting_then_verdict started).1.played ≡ (pos 0 ∷ []) ∷ []
unfolding probe_loop take_event conclude find_verdict
greeting_played = refl

abbrev judged : Progress
judged = record started { judging = true }

abbrev quiet : ℕ → Bytes
quiet zero = []
quiet (suc n) = 255 ∷ quiet n

abbrev silence : Bytes
silence = quiet 160

abbrev silences : ℕ → List Bytes
silences zero = []
silences (suc n) = silence ∷ silences n

silences-IsFrame : (n : ℕ) → All IsFrame (silences n)
silences-IsFrame zero = tt
silences-IsFrame (suc n) = (refl, silences-IsFrame n)

human_verdict_heard_example :
    find_verdict (concat (probe_loop decoded greeting_then_verdict started).1.texts) ≡ some true
unfolding probe_loop take_event conclude find_verdict verdict_from_text call probe_streamed
    new_breaker
human_verdict_heard_example =
    human_verdict_heard decoded greeting_then_verdict 3 4 (new_breaker 4 45) found_human refl refl

prose_presses_one_key_example : size "2" ≡ 1
unfolding choose_digit
prose_presses_one_key_example =
    prose_presses_one_key plain "Press 2 for sales"
      (record { digits = some "2"; rationale = "Press 2 for sales" }) "2" refl refl

-- A stand-in for base64: each byte in unary, with a comma at its end.
abbrev ones : ℕ → String → String
ones zero s = String.◌∷◌ "," s
ones (suc n) s = String.◌∷◌ "1" (ones n s)

abbrev encoded : Bytes → String
encoded [] = String.[]
encoded (b ∷ bs) = ones b (encoded bs)

abbrev unary : ℕ → String → Bytes
unary k String.[] = []
unary k (String.◌∷◌ c s) = if code c == b',' then k ∷ unary 0 s else unary (suc k) s

unary-ones : (k n : ℕ) (s : String) → unary k (ones n s) ≡ (k + n) ∷ unary 0 s
unary-ones k zero s = ap (λ n. n ∷ unary 0 s) (omega arith)
unary-ones k (suc n) s = unary-ones (suc k) n s ∙ ap (λ n. n ∷ unary 0 s) (omega arith)

unary_back : (b : Bytes) → unary 0 (encoded b) ≡ b
unary_back [] = refl
unary_back (b ∷ bs) =
    unary-ones 0 b (encoded bs)
    ∙ ap (λ n. n ∷ unary 0 (encoded bs)) (omega arith)
    ∙ ap (λ r. b ∷ r) (unary_back bs)

unary-encoded : (b : Bytes) → some (unary 0 (encoded b)) ≡ some b
unary-encoded b = ap some (unary_back b)

-- A second, counted in samples.
abbrev a_second : ℕ → Bool
a_second drained = ltb drained 8000

after_eq : (n drained : ℕ) → after ◌+◌ a_second n drained ≡ drained + n * 160
after_eq zero drained = omega arith
after_eq (suc n) drained = omega (arith, after_eq n (drained + 160))

a_second-Lasts : Lasts ◌+◌ a_second 50 0
a_second-Lasts = (λ k lt. ground (arith, after_eq k 0), refl)

probe_documents-told_example :
    let ds = probe_documents encoded ◌+◌ a_second 0 (silences 60) in
    (50 ≤ length (silences 60)
      → (appended encoded (λ s. some (unary 0 s)) unary-encoded ds ≡ take 50 (silences 60))
        × (commits ds ≡ 1)
        × (asked ds ≡ greeting ∷ judge ∷ []))
    × (length (silences 60) < 50
        → (appended encoded (λ s. some (unary 0 s)) unary-encoded ds ≡ silences 60)
          × (commits ds ≡ 0)
          × (asked ds ≡ greeting ∷ []))
probe_documents-told_example =
    probe_documents-told encoded (λ s. some (unary 0 s)) unary-encoded ◌+◌ a_second 0 50
      (silences 60) (silences-IsFrame 60) a_second-Lasts
