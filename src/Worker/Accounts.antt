-- ===== src/Worker/Accounts.antt =====
-- Where a message is after the loop of src/dialpass/workers/telemetry_worker.py.
use mathlib.Core.Path.{subst}
use mathlib.Core.List.{Memᴰ}
use mathlib.Core.List.Memᴰ
use dial_pass.Prelude.{
  ◌≡◌, ◌⊎◌, ◌∙◌, ap, sym, inl, inr, String, Bool, false, Option, none, some, List, [], ◌∷◌, ◌++◌,
  append-nil, All, arith,
}
use dial_pass.Worker.{Message, Receipt, receipt, Sorted, add_message, sort_messages, handle}
use dial_pass.Worker.Loop.{
  EventStore, StoreLaws, Queue, QueueLaws, Worker, Arrival, polled, arrived, redriven, write_events,
  delete_messages, round, run, handle-deleted,
}

module _ {E : Type 0} (parse : String → Option E) where
  add_message-event :
      (o : Option E) (m : Message) (s : Sorted E) (e : E)
      → o ≡ some e
      → Memᴰ e (add_message parse o m s).events
  add_message-event none m s e p = cc p
  add_message-event (some x) m s e p = Memᴰ.head (ground (arith, p))

  add_message-later :
      (o : Option E) (m : Message) (s : Sorted E) (e : E)
      → Memᴰ e s.events
      → Memᴰ e (add_message parse o m s).events
  add_message-later none m s e h = h
  add_message-later (some x) m s e h = Memᴰ.tail h

  -- A message that can be read has its event among those to store.
  sort_messages-events :
      (m : Message) (ms : List Message) (e : E)
      → Memᴰ m ms
      → parse m.body ≡ some e
      → Memᴰ e (sort_messages parse ms).events
  unfolding sort_messages
  sort_messages-events m [] e h read = absurd (Memᴰ.not-nil h)
  sort_messages-events m (n ∷ ms) e h read = elim (Memᴰ.cases_cons h) [
    | inl same ↦ add_message-event (parse n.body) n (sort_messages parse ms) e (rw (← same) read)
    | inr later ↦
        add_message-later (parse n.body) n (sort_messages parse ms) e
          (sort_messages-events m ms e later read)
  ]

module _ {E S Q : Type 0} (parse : String → Option E) (store : EventStore E S) (queue : Queue Q)
    (stores : StoreLaws store) (queues : QueueLaws queue) where
  open stores use {rows, write_stored, write_raised}
  open queues use {
    Item, body_of, Held, Parked, Names, delete_held, delete_parked, send_held, send_parked,
    redrive_held, redrive_parked, names_one,
  }

  write_events-rows :
      (es : List E) (s : S)
      → let (raised, t) = write_events store es s in
        (raised ≡ false → rows t ≡ rows s ++ es) × ((e : E) → Memᴰ e (rows s) → Memᴰ e (rows t))
  write_events-rows [] s = (λ _. sym (append-nil (rows s)), λ e h. h)
  write_events-rows (x ∷ es) s = (write_stored (x ∷ es) s, write_raised (x ∷ es) s)

  delete_messages-Held :
      (x : Item) (rs : List Receipt) (q : Q)
      → Held x q
      → Held x (delete_messages queue rs q) ⊎ ((r : Receipt) × Memᴰ r rs × Names r x)
  delete_messages-Held x [] q h = inl h
  delete_messages-Held x (r ∷ rs) q h = delete_held x (r ∷ rs) q h

  delete_messages-Parked :
      (x : Item) (rs : List Receipt) (q : Q) → Parked x q → Parked x (delete_messages queue rs q)
  delete_messages-Parked x [] q h = h
  delete_messages-Parked x (r ∷ rs) q h = delete_parked x (r ∷ rs) q h

  -- The message is on the queue or in the dead-letter queue, or cannot be read, or its event is in the
  -- store.
  abbrev pub IsAccounted : Item → Worker Q S → Type 0
  IsAccounted x w =
      (Held x w.queue ⊎ Parked x w.queue)
      ⊎ ((parse (body_of x) ≡ none)
          ⊎ ((e : E) × (parse (body_of x) ≡ some e) × Memᴰ e (rows w.store)))

  -- A receive gave the message out: with its body, and with a handle of its own.
  abbrev pub IsReceived : Message → Type 0
  IsReceived m = (x : Item) × (m.body ≡ body_of x) × Names (receipt m) x

  IsReceived-Memᴰ : (m : Message) (ms : List Message) → All IsReceived ms → Memᴰ m ms → IsReceived m
  IsReceived-Memᴰ m [] all h = absurd (Memᴰ.not-nil h)
  IsReceived-Memᴰ m (n ∷ ms) all h = elim (Memᴰ.cases_cons h) [
    | inl e ↦ rw e all.0
    | inr later ↦ IsReceived-Memᴰ m ms all.1 later
  ]

  -- What a received message says, where its handle names another receive of a message.
  same_body :
      (x : Item) (r : Receipt) (n : Message) (ms : List Message)
      → All IsReceived ms
      → Memᴰ n ms
      → r ≡ receipt n
      → Names r x
      → n.body ≡ body_of x
  same_body x r n ms all member e named =
      let (y, body, other) = IsReceived-Memᴰ n ms all member in
      let own : Names r y = subst (λ k. Names k y) (sym e) other in
      body ∙ ap body_of (names_one r y x own named)

  round-IsAccounted :
      (x : Item) (ms : List Message) (w : Worker Q S)
      → All IsReceived ms
      → IsAccounted x w
      → IsAccounted x (round parse store queue ms w)
  unfolding round
  round-IsAccounted x ms w all (inl (inl held)) =
      let es : List E = (sort_messages parse ms).events in
      let (written, kept) = write_events-rows es w.store in
      let raised : Bool = (write_events store es w.store).0 in
      elim (delete_messages-Held x (handle parse raised ms).deleted w.queue held) [
        | inl still ↦ inl (inl still)
        | inr (r, gone, named) ↦ elim (handle-deleted parse raised r ms gone) [
          | inl (n, member, e, unread) ↦
              inr (inl (ap parse (sym (same_body x r n ms all member e named)) ∙ unread))
          | inr (fine, (n, member, e, (v, read, stored))) ↦ inr (
              inr (
                v,
                ap parse (sym (same_body x r n ms all member e named)) ∙ read,
                rw (written fine) (Memᴰ.append_right (rows w.store) stored),
              ))
        ]
      ]
  round-IsAccounted x ms w all (inl (inr parked)) =
      inl (inr (delete_messages-Parked x _ w.queue parked))
  round-IsAccounted x ms w all (inr (inl unread)) = inr (inl unread)
  round-IsAccounted x ms w all (inr (inr (v, read, stored))) =
      let (written, kept) = write_events-rows (sort_messages parse ms).events w.store in
      inr (inr (v, read, kept v stored))

  round-stored :
      (m : Message) (ms : List Message) (w : Worker Q S) (e : E)
      → (write_events store (sort_messages parse ms).events w.store).0 ≡ false
      → Memᴰ m ms
      → parse m.body ≡ some e
      → Memᴰ e (rows (round parse store queue ms w).store)
  unfolding round
  round-stored m ms w e fine member read =
      rw ((write_events-rows (sort_messages parse ms).events w.store).0 fine)
        (Memᴰ.append_right (rows w.store) (sort_messages-events parse m ms e member read))

  -- The polls hand out messages that the queue received.
  abbrev pub IsDelivery : Arrival → Type 0
  IsDelivery (polled ms) = All IsReceived ms
  IsDelivery _ = Unit

  run-IsAccounted :
      (x : Item) (rest : List Arrival) (w : Worker Q S)
      → All IsDelivery rest
      → IsAccounted x w
      → IsAccounted x (run parse store queue rest w)
  unfolding run
  run-IsAccounted x [] w all h = h
  run-IsAccounted x (polled ms ∷ rest) w all h =
      run-IsAccounted x rest (round parse store queue ms w) all.1 (round-IsAccounted x ms w all.0 h)
  run-IsAccounted x (arrived body ∷ rest) w all (inl (inl held)) =
      run-IsAccounted x rest _ all.1 (inl (inl (send_held x body w.queue held)))
  run-IsAccounted x (arrived body ∷ rest) w all (inl (inr parked)) =
      run-IsAccounted x rest _ all.1 (inl (inr (send_parked x body w.queue parked)))
  run-IsAccounted x (arrived body ∷ rest) w all (inr h) = run-IsAccounted x rest _ all.1 (inr h)
  run-IsAccounted x (redriven ∷ rest) w all (inl (inl held)) =
      run-IsAccounted x rest _ all.1 (inl (redrive_held x w.queue held))
  run-IsAccounted x (redriven ∷ rest) w all (inl (inr parked)) =
      run-IsAccounted x rest _ all.1 (inl (inr (redrive_parked x w.queue parked)))
  run-IsAccounted x (redriven ∷ rest) w all (inr h) = run-IsAccounted x rest _ all.1 (inr h)

  -- However the store fails, however often the queue delivers a message, each time with another
  -- handle, and whatever it moves to the dead-letter queue: a message that is on the queue is never
  -- lost. After the loop of the worker it is on the queue or in the dead-letter queue, or it cannot be
  -- read, or its event is in the store. It relies on what the store promises of its rows, and on what
  -- SQS documents of deletions, handles and redrives. A poll that delivers a message that can be read
  -- leaves its event in the store, unless the write raises.
  pub message_never_lost :
      (x : Item) (rest : List Arrival) (m : Message) (ms : List Message) (w : Worker Q S)
      → All IsDelivery rest
      → Held x w.queue
      → let v = run parse store queue rest w in
        IsAccounted x v
        × ((write_events store (sort_messages parse ms).events v.store).0 ≡ false
            → Memᴰ m ms
            → (e : E) → parse m.body ≡ some e
            → Memᴰ e (rows (round parse store queue ms v).store))
  message_never_lost x rest m ms w all held =
      let v : Worker Q S = run parse store queue rest w in
      (
        run-IsAccounted x rest w all (inl (inl held)),
        λ fine member e. round-stored m ms v e fine member,
      )
