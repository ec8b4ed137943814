-- ===== src/Worker/Loop.antt =====
-- src/dialpass/workers/telemetry_worker.py: the loop of `run` over a queue and a store, and
-- what its deletions stand for.
use mathlib.Core.List.{Memᴰ}
use mathlib.Core.List.Memᴰ
use dial_pass.Prelude.{
  ◌≡◌, ◌⊎◌, refl, inl, inr, String, Bool, true, false, Option, none, some, List, [], ◌∷◌, ◌++◌,
}
use dial_pass.Worker.{Message, Receipt, receipt, Sorted, add_message, sort_messages, handle}

-- `EventStore` of store.py: whether the write raises, and the store after it.
pub record EventStore (E S : Type 0) : Type 0 where
  pub write_many : List E → S → Bool × S
  pub close : S → S

-- What a store promises of its rows.
pub record StoreLaws {E S : Type 0} (store : EventStore E S) : Type 0 where
  pub rows : S → List E
  pub write_stored :
      (es : List E) (s : S)
      → (store.write_many es s).0 ≡ false
      → rows (store.write_many es s).1 ≡ rows s ++ es
  pub write_raised :
      (es : List E) (s : S) (e : E) → Memᴰ e (rows s) → Memᴰ e (rows (store.write_many es s).1)

-- The queue of SQS: `delete_message_batch`; a body that others send to it; and its redrive policy,
-- which moves messages that were received too often to the dead-letter queue.
pub record Queue (Q : Type 0) : Type 0 where
  pub delete : List Receipt → Q → Q
  pub send : String → Q → Q
  pub redrive : Q → Q

-- What SQS documents of a queue. A message that was sent is held, or parked in the dead-letter queue.
-- Each receive of it gives out another handle, and a handle names one message. A deletion removes only
-- messages that its handles name, and a redrive parks what it takes off the queue.
pub record QueueLaws {Q : Type 0} (queue : Queue Q) : Type 1 where
  pub Item : Type 0
  pub body_of : Item → String
  pub Held : Item → Q → Type 0
  pub Parked : Item → Q → Type 0
  pub Names : Receipt → Item → Type 0
  pub delete_held :
      (x : Item) (rs : List Receipt) (q : Q)
      → Held x q
      → Held x (queue.delete rs q) ⊎ ((r : Receipt) × Memᴰ r rs × Names r x)
  pub delete_parked :
      (x : Item) (rs : List Receipt) (q : Q) → Parked x q → Parked x (queue.delete rs q)
  pub send_held : (x : Item) (body : String) (q : Q) → Held x q → Held x (queue.send body q)
  pub send_parked : (x : Item) (body : String) (q : Q) → Parked x q → Parked x (queue.send body q)
  pub redrive_held :
      (x : Item) (q : Q) → Held x q → Held x (queue.redrive q) ⊎ Parked x (queue.redrive q)
  pub redrive_parked : (x : Item) (q : Q) → Parked x q → Parked x (queue.redrive q)
  pub names_one : (r : Receipt) (x y : Item) → Names r x → Names r y → x ≡ y

pub record Worker (Q S : Type 0) : Type 0 where
  pub queue : Q
  pub store : S

-- What happens to the worker: a poll gives it messages, a message is sent to the queue, or the queue
-- redrives messages.
pub data Arrival : Type 0 where
  polled : List Message → Arrival
  arrived : String → Arrival
  redriven : Arrival

abbrev pub write_events : {E S : Type 0} → EventStore E S → List E → S → Bool × S
write_events store [] s = (false, s)
write_events store (e ∷ es) s = store.write_many (e ∷ es) s

abbrev pub delete_messages : {Q : Type 0} → Queue Q → List Receipt → Q → Q
delete_messages queue [] q = q
delete_messages queue (r ∷ rs) q = queue.delete (r ∷ rs) q

module _ {E S Q : Type 0} (parse : String → Option E) (store : EventStore E S)
    (queue : Queue Q) where
  -- One pass of the `while` of `run`, on the messages of its poll; without any, it does nothing.
  unfoldable pub round : List Message → Worker Q S → Worker Q S
  round ms w =
      let sorted = sort_messages parse ms in
      let (raised, s) = write_events store sorted.events w.store in
      record { queue = delete_messages queue (handle parse raised ms).deleted w.queue; store = s }

  -- `run`, until it is stopped.
  unfoldable pub run : List Arrival → Worker Q S → Worker Q S
  unfolding round
  run [] w = w
  run (polled ms ∷ rest) w = run rest (round ms w)
  run (arrived body ∷ rest) w = run rest (record w { queue = queue.send body w.queue })
  run (redriven ∷ rest) w = run rest (record w { queue = queue.redrive w.queue })

module _ {E : Type 0} (parse : String → Option E) where
  -- The receipt stands for a message of the list that cannot be read.
  abbrev pub IsPoison : Receipt → List Message → Type 0
  IsPoison r ms = (m : Message) × Memᴰ m ms × (r ≡ receipt m) × (parse m.body ≡ none)

  -- The receipt stands for a message of the list whose event is among those given.
  abbrev pub IsRead : Receipt → List Message → List E → Type 0
  IsRead r ms es =
      (m : Message) × Memᴰ m ms × (r ≡ receipt m) × ((e : E) × (parse m.body ≡ some e) × Memᴰ e es)

  add_message-IsPoison :
      (o : Option E) (r : Receipt) (m : Message) (ms : List Message) (s : Sorted E)
      → parse m.body ≡ o
      → (Memᴰ r s.poison_receipts → IsPoison r ms)
      → Memᴰ r (add_message parse o m s).poison_receipts
      → IsPoison r (m ∷ ms)
  add_message-IsPoison none r m ms s p ih h = elim (Memᴰ.cases_cons h) [
    | inl e ↦ (m, Memᴰ.head refl, e, p)
    | inr later ↦ let (n, member, e, unread) = ih later in (n, Memᴰ.tail member, e, unread)
  ]
  add_message-IsPoison (some x) r m ms s p ih h =
      let (n, member, e, unread) = ih h in (n, Memᴰ.tail member, e, unread)

  poison_receipts-IsPoison :
      (r : Receipt) (ms : List Message)
      → Memᴰ r (sort_messages parse ms).poison_receipts
      → IsPoison r ms
  unfolding sort_messages
  poison_receipts-IsPoison r [] h = absurd (Memᴰ.not-nil h)
  poison_receipts-IsPoison r (m ∷ ms) h =
      add_message-IsPoison (parse m.body) r m ms (sort_messages parse ms) refl
        (poison_receipts-IsPoison r ms) h

  add_message-IsRead :
      (o : Option E) (r : Receipt) (m : Message) (ms : List Message) (s : Sorted E)
      → parse m.body ≡ o
      → (Memᴰ r s.stored_receipts → IsRead r ms s.events)
      → Memᴰ r (add_message parse o m s).stored_receipts
      → IsRead r (m ∷ ms) (add_message parse o m s).events
  add_message-IsRead none r m ms s p ih h =
      let (n, member, e, read) = ih h in (n, Memᴰ.tail member, e, read)
  add_message-IsRead (some x) r m ms s p ih h = elim (Memᴰ.cases_cons h) [
    | inl e ↦ (m, Memᴰ.head refl, e, (x, p, Memᴰ.head refl))
    | inr later ↦
        let (n, member, e, (y, q, stored)) = ih later in
        (n, Memᴰ.tail member, e, (y, q, Memᴰ.tail stored))
  ]

  stored_receipts-IsRead :
      (r : Receipt) (ms : List Message)
      → Memᴰ r (sort_messages parse ms).stored_receipts
      → IsRead r ms (sort_messages parse ms).events
  unfolding sort_messages
  stored_receipts-IsRead r [] h = absurd (Memᴰ.not-nil h)
  stored_receipts-IsRead r (m ∷ ms) h =
      add_message-IsRead (parse m.body) r m ms (sort_messages parse ms) refl
        (stored_receipts-IsRead r ms) h

  -- What a deletion of a round stands for.
  pub handle-deleted :
      (raised : Bool) (r : Receipt) (ms : List Message)
      → Memᴰ r (handle parse raised ms).deleted
      → IsPoison r ms ⊎ ((raised ≡ false) × IsRead r ms (sort_messages parse ms).events)
  unfolding handle
  handle-deleted true r ms h = inl (poison_receipts-IsPoison r ms h)
  handle-deleted false r ms h =
      elim (Memᴰ.append_cases (sort_messages parse ms).stored_receipts h) [
        | inl stored ↦ inr (refl, stored_receipts-IsRead r ms stored)
        | inr poison ↦ inl (poison_receipts-IsPoison r ms poison)
      ]
