-- ===== src/Media/Writing.antt =====
-- The writing task of a socket of src/dialpass/api/media.py, `_drain_loop`: each round it drains the
-- queue of its leg and sends the messages one by one, until a send raises.
use dial_pass.Prelude.{
  Bool-cases, inl, inr, ◌≡◌, refl, ap, ◌∙◌, sym, Bool, true, false, List, [], ◌∷◌, ◌++◌,
  append_assoc, append-nil, if◌then◌else◌,
}
use dial_pass.Bridge.{Message}

-- The messages that went out, those that were drained and did not, and whether the task goes on.
pub record Shipped : Type 0 where
  pub sent : List Message
  pub unsent : List Message
  pub alive : Bool

-- The `for` of a round; `accepts` says of a message whether its send returns.
unfoldable pub ship : (Message → Bool) → List Message → Shipped
ship accepts [] = record { sent = []; unsent = []; alive = true }
ship accepts (m ∷ ms) =
    let rest = ship accepts ms in
    if accepts m
    then record rest { sent = m ∷ rest.sent }
    else record { sent = []; unsent = m ∷ ms; alive = false }

-- A round: what the queue held when it was drained, and which sends return.
abbrev pub Round : Type 0
Round = (Message → Bool) × List Message

-- `_drain_loop`: all that was sent, and what the round that ended it had drained in vain.
unfoldable pub drain_loop : List Round → Shipped
unfolding ship
drain_loop [] = record { sent = []; unsent = []; alive = true }
drain_loop ((accepts, queue) ∷ rounds) =
    let s = ship accepts queue in
    let rest = drain_loop rounds in
    if s.alive then record rest { sent = s.sent ++ rest.sent } else s

ship-whole :
    (accepts : Message → Bool) (ms : List Message)
    → let s = ship accepts ms in (s.sent ++ s.unsent ≡ ms) × (s.alive ≡ true → s.unsent ≡ [])
unfolding ship
ship-whole accepts [] = (refl, λ _. refl)
ship-whole accepts (m ∷ ms) =
    let (whole, done) = ship-whole accepts ms in
    elim (Bool-cases (accepts m)) [
      | inl e ↦ rw e (ap (λ r. m ∷ r) whole, done)
      | inr e ↦ rw e (refl, λ h. cc h)
    ]

-- All that was drained for a leg.
abbrev pub drained : List Round → List Message
drained [] = []
drained ((accepts, queue) ∷ rounds) = queue ++ drained rounds

-- What a writing task sends is the beginning of what the rounds drained, in order and each once: what
-- follows is what its last round drained in vain, and what was drained after it. If no send raises,
-- all of it is sent.
pub drain_loop-prefix :
    (rounds : List Round)
    → let s = drain_loop rounds in
      (rest : List Message) × (drained rounds ≡ s.sent ++ (s.unsent ++ rest))
      × (s.alive ≡ true → drained rounds ≡ s.sent)
unfolding drain_loop
drain_loop-prefix [] = ([], refl, λ _. refl)
drain_loop-prefix ((accepts, queue) ∷ rounds) =
    let s = ship accepts queue in
    let (whole, done) = ship-whole accepts queue in
    let (rest, all, finished) = drain_loop-prefix rounds in
    let r = drain_loop rounds in
    elim (Bool-cases s.alive) [
      | inl alive ↦
          let sent_all : queue ≡ s.sent =
            sym whole ∙ ap (λ t. s.sent ++ t) (done alive) ∙ append-nil s.sent in
          rw alive (
            rest,
            ap (λ q. q ++ drained rounds) sent_all
                ∙ ap (λ t. s.sent ++ t) all
                ∙ sym (append_assoc s.sent r.sent (r.unsent ++ rest)),
            λ going.
                ap (λ q. q ++ drained rounds) sent_all ∙ ap (λ t. s.sent ++ t) (finished going),
          )
      | inr ended ↦ rw ended (
        drained rounds,
        ap (λ q. q ++ drained rounds) (sym whole) ∙ append_assoc s.sent s.unsent (drained rounds),
        λ going. cc (going, ended),
      )
    ]
