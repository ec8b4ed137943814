-- ===== src/Realtime/Turn.antt =====
-- What the messages of a menu turn of client.py come to.
use dial_pass.Prelude.{
  ◌≡◌, refl, ◌∙◌, String, Bool, true, false, not, ◌&&◌, Option, none, List, [], ◌∷◌, ◌++◌,
  append-nil, append_assoc, map, All, str_eq, if◌then◌else◌, Bool-cases, inl, inr, arith,
}
use dial_pass.Prelude.Text.{concat}
use dial_pass.Breaker.{Error, raised}
use dial_pass.Realtime.Exchange.{
  Event, Incoming, message, exception, or_none, text_or_done, collect,
}
use dial_pass.Realtime.Client.{choose_digit, choose_menu_digit}

-- Neither an error nor the end of the response.
abbrev pub is_progress : Event → Bool
is_progress e = not (str_eq e.kind "error") && not (str_eq e.kind "response.done")

abbrev pub IsProgress : Event → Type 0
IsProgress e = is_progress e ≡ true

-- The deltas of text, in order.
abbrev pub deltas : List Event → List String
deltas [] = []
deltas (e ∷ es) =
    let rest = deltas es in
    if str_eq e.kind "response.output_text.delta" then e.delta ∷ rest else rest

collect-progress :
    (es : List Event) (parts : List String) (later : List Incoming)
    → All IsProgress es
    → collect parts (map message es ++ later) ≡ collect (parts ++ deltas es) later
unfolding collect
collect-progress [] parts later h = rw append-nil refl
collect-progress (e ∷ es) parts later (going, h) =
    let no_error : str_eq e.kind "error" ≡ false = ground arith in
    let not_done : str_eq e.kind "response.done" ≡ false = ground arith in
    elim (Bool-cases (str_eq e.kind "response.output_text.delta")) [
      | inl spoken ↦
          rw (no_error, spoken)
            (rw (collect-progress es (parts ++ e.delta ∷ []) later h) (rw append_assoc refl))
      | inr other ↦ rw (no_error, other, not_done) (collect-progress es parts later h)
    ]

-- The end of a turn: no more messages, the end of the response, an error or an exception.
pub data TurnEnd : List Incoming → Type 0 where
  closed : TurnEnd []
  finished :
      (e : Event) (later : List Incoming) → e.kind ≡ "response.done" → TurnEnd (message e ∷ later)
  error_event : (e : Event) (later : List Incoming) → e.kind ≡ "error" → TurnEnd (message e ∷ later)
  lost : (later : List Incoming) → TurnEnd (exception ∷ later)

-- What a turn comes to, by its end and the text before it.
abbrev pub turn_text : {later : List Incoming} → TurnEnd later → String → Option String
turn_text closed text = or_none text
turn_text (finished e later k) text = text_or_done text e
turn_text (error_event e later k) text = none
turn_text (lost later) text = none

collect-turn_text :
    (parts : List String) (later : List Incoming) (end : TurnEnd later)
    → collect parts later ≡ turn_text end (concat parts)
unfolding collect
collect-turn_text parts _ closed = refl
collect-turn_text parts _ (finished e later k) = rw k refl
collect-turn_text parts _ (error_event e later k) = rw k refl
collect-turn_text parts _ (lost later) = refl

-- Whatever events come before the end of a menu turn, the turn comes to the text of the deltas in
-- their order, or that of the final event where there is none; at an error event or an exception it
-- comes to nothing. Where it comes to nothing, the client raises `Tier2Unavailable`.
pub menu_turn_lem :
    (repr : String → String) (read_object : String → Option (String × String)) (es : List Event)
    (later : List Incoming) (end : TurnEnd later)
    → All IsProgress es
    → let decided = choose_menu_digit repr read_object (map message es ++ later) in
      let text = turn_text end (concat (deltas es)) in
      (decided ≡ choose_digit repr read_object text)
      × (text ≡ none → decided ≡ raised Error.tier2_unavailable)
unfolding choose_menu_digit choose_digit
menu_turn_lem repr read_object es later end h =
    let heard = collect-progress es [] later h ∙ collect-turn_text (deltas es) later end in
    (rw heard refl, λ silent. rw heard (rw silent refl))
