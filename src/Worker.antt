-- ===== src/Worker.antt =====
-- src/dialpass/workers/telemetry_worker.py: the loop that stores the events of SQS. The parser of
-- bodies, the store and the queue are parameters: a body is read or is not, a write raises or not.
pub mod Loop
pub mod Accounts
pub mod Main
mod Examples
use mathlib.Core.List.{map}
use dial_pass.Prelude.{
  ℕ, zero, suc, ◌+◌, ◌≡◌, refl, sym, ap, ◌∙◌, ◌⊎◌, inl, inr, String, Bool, true, false, not, ◌&&◌,
  Option, none, some, List, [], ◌∷◌, ◌++◌, length, All, if◌then◌else◌, if_elim, arith, Option-cases,
  is_some,
}

pub record Message : Type 0 where
  pub message_id : String
  pub receipt_handle : String
  pub body : String

-- An entry of a deletion.
pub record Receipt : Type 0 where
  pub message_id : String
  pub receipt_handle : String

abbrev pub receipt : Message → Receipt
receipt m = record { message_id = m.message_id; receipt_handle = m.receipt_handle }

pub record Sorted (E : Type 0) : Type 0 where
  pub events : List E
  pub stored_receipts : List Receipt
  pub poison_receipts : List Receipt

-- What a round does outside: the events that it has the store write, or none, and the entries that it
-- deletes from the queue.
pub record Round (E : Type 0) : Type 0 where
  pub stored : List E
  pub deleted : List Receipt

module _ {E : Type 0} (parse : String → Option E) where
  abbrev pub add_message : Option E → Message → Sorted E → Sorted E
  add_message none m s = record s { poison_receipts = receipt m ∷ s.poison_receipts }
  add_message (some e) m s = record s {
    events = e ∷ s.events;
    stored_receipts = receipt m ∷ s.stored_receipts;
  }

  -- The loop of `run` over the messages, in their order.
  unfoldable pub sort_messages : List Message → Sorted E
  sort_messages [] = record { events = []; stored_receipts = []; poison_receipts = [] }
  sort_messages (m ∷ ms) = add_message (parse m.body) m (sort_messages ms)

  -- One round of `run`; `raised` says whether the store raises, which writes nothing.
  unfoldable pub handle : Bool → List Message → Round E
  unfolding sort_messages
  handle raised ms =
      let s = sort_messages ms in
      if raised
      then record { stored = []; deleted = s.poison_receipts }
      else record { stored = s.events; deleted = s.stored_receipts ++ s.poison_receipts }

  -- The messages that can be read, and those that cannot.
  abbrev pub readable : List Message → List Message
  readable [] = []
  readable (m ∷ ms) = let rest = readable ms in if is_some (parse m.body) then m ∷ rest else rest

  abbrev pub unreadable : List Message → List Message
  unreadable [] = []
  unreadable (m ∷ ms) =
      let rest = unreadable ms in if is_some (parse m.body) then rest else m ∷ rest

  sort_messages-cases :
      (ms : List Message)
      → let s = sort_messages ms in
        (map some s.events ≡ map (λ m. parse m.body) (readable ms))
        × (s.stored_receipts ≡ map receipt (readable ms))
        × (s.poison_receipts ≡ map receipt (unreadable ms))
  unfolding sort_messages
  sort_messages-cases [] = (refl, refl, refl)
  sort_messages-cases (m ∷ ms) =
      let (events, stored, poison) = sort_messages-cases ms in
      elim (Option-cases (parse m.body)) [
        | inl unread ↦ rw unread (events, stored, ap (λ r. receipt m ∷ r) poison)
        | inr (e, read) ↦ rw read (
          ap (λ r. some e ∷ r) events
              ∙ ap (λ o. o ∷ map (λ m. parse m.body) (readable ms)) (sym read),
          ap (λ r. receipt m ∷ r) stored,
          poison,
        )
      ]

  -- A message is deleted only once its event is stored, or because it cannot be read. If the store
  -- raises, the unreadable messages alone are deleted, and nothing is stored. Otherwise the events of
  -- exactly the readable messages are stored, in order, and every message is deleted.
  pub handle_cases :
      (raised : Bool) (ms : List Message)
      → let r = handle raised ms in
        (raised ≡ true → (r.stored ≡ []) × (r.deleted ≡ map receipt (unreadable ms)))
        × (raised ≡ false
            → (map some r.stored ≡ map (λ m. parse m.body) (readable ms))
              × (r.deleted ≡ map receipt (readable ms) ++ map receipt (unreadable ms)))
  unfolding handle
  handle_cases true ms =
      let (events, stored, poison) = sort_messages-cases ms in (λ e. (refl, poison), λ e. cc e)
  handle_cases false ms =
      let (events, stored, poison) = sort_messages-cases ms in
      (λ e. cc e, λ e. (events, rw (stored, poison) refl))
