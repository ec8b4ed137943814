-- ===== src/Worker/Examples.antt =====
-- Runs of the worker, as in tests/test_telemetry_worker.py: a parser that reads one body, a queue that
-- is a list, and a store in memory.
use mathlib.Core.List.{Memᴰ}
use mathlib.Core.List.Memᴰ
use dial_pass.Prelude.{
  ℕ, ◌≡◌, ◌⊎◌, refl, sym, ◌∙◌, inl, inr, String, Bool, true, false, Option, none, some, List, [],
  ◌∷◌, ◌++◌, ◌||◌, Bool-cases, str_eq, eq_iff, if◌then◌else◌, arith,
}
use dial_pass.Worker.{Message, Receipt, sort_messages}
use dial_pass.Worker.Loop.{
  Queue, QueueLaws, Worker, Arrival, polled, arrived, redriven, write_events, round, run,
}
use dial_pass.Worker.Accounts.{IsAccounted, message_never_lost}
use dial_pass.Telemetry.Store.{memory_store}
use dial_pass.Telemetry.Store.Rows.{memory_laws}

abbrev parse : String → Option ℕ
parse body = if str_eq body "{}" then some 1 else none

abbrev good : Message
good = record { message_id = "{}"; receipt_handle = "r1"; body = "{}" }

-- The same message, received again.
abbrev again : Message
again = record good { receipt_handle = "r7" }

abbrev bad : Message
bad = record { message_id = "{"; receipt_handle = "r2"; body = "{" }

abbrev is_named : String → List Receipt → Bool
is_named m [] = false
is_named m (r ∷ rs) = str_eq r.message_id m || is_named m rs

remove : List Receipt → List String → List String
remove rs [] = []
remove rs (m ∷ q) = let rest = remove rs q in if is_named m rs then rest else m ∷ rest

-- Two lists: the bodies of the queue, and those of the dead-letter queue, to which all are moved.
abbrev Lists : Type 0
Lists = List String × List String

abbrev list_queue : Queue Lists
list_queue = record {
  delete = λ rs q. (remove rs q.0, q.1);
  send = λ m q. (q.0 ++ m ∷ [], q.1);
  redrive = λ q. ([], q.0 ++ q.1);
}

-- The receipt is among those given, and names the message.
abbrev IsNamed : String → List Receipt → Type 0
IsNamed m rs = (r : Receipt) × Memᴰ r rs × (r.message_id ≡ m)

later-IsNamed : (m : String) (r : Receipt) (rs : List Receipt) → IsNamed m rs → IsNamed m (r ∷ rs)
later-IsNamed m r rs (k, member, e) = (k, Memᴰ.tail member, e)

is_named-IsNamed : (m : String) (rs : List Receipt) → is_named m rs ≡ true → IsNamed m rs
is_named-IsNamed m [] h = cc h
is_named-IsNamed m (r ∷ rs) h = elim (Bool-cases (str_eq r.message_id m)) [
  | inl e ↦ (r, Memᴰ.head refl, (eq_iff r.message_id m).0 e)
  | inr e ↦ later-IsNamed m r rs (is_named-IsNamed m rs (ground (arith, h, e)))
]

kept-Memᴰ :
    (m n : String) (rs : List Receipt) (rest : List String)
    → Memᴰ m (n ∷ rest)
    → (b : Bool) → is_named n rs ≡ b
    → (Memᴰ m rest → Memᴰ m (remove rs rest) ⊎ IsNamed m rs)
    → Memᴰ m (if b then remove rs rest else n ∷ remove rs rest) ⊎ IsNamed m rs
kept-Memᴰ m n rs rest h true e below = elim (Memᴰ.cases_cons h) [
  | inl same ↦ inr (rw same (is_named-IsNamed n rs e))
  | inr later ↦ below later
]
kept-Memᴰ m n rs rest h false e below = elim (Memᴰ.cases_cons h) [
  | inl same ↦ inl (Memᴰ.head same)
  | inr later ↦ elim (below later) [ inl still ↦ inl (Memᴰ.tail still) | inr named ↦ inr named ]
]

remove-Memᴰ :
    (m : String) (rs : List Receipt) (q : List String)
    → Memᴰ m q
    → Memᴰ m (remove rs q) ⊎ IsNamed m rs
unfolding remove
remove-Memᴰ m rs [] h = absurd (Memᴰ.not-nil h)
remove-Memᴰ m rs (n ∷ q) h =
    kept-Memᴰ m n rs q h (is_named n rs) refl (λ later. remove-Memᴰ m rs q later)

-- The body of a message is also its number, and every handle that comes with the number names it.
abbrev list_laws : QueueLaws list_queue
list_laws = record {
  Item = String;
  body_of = λ m. m;
  Held = λ m q. Memᴰ m q.0;
  Parked = λ m q. Memᴰ m q.1;
  Names = λ r m. r.message_id ≡ m;
  delete_held = λ m rs q h. remove-Memᴰ m rs q.0 h;
  delete_parked = λ m rs q h. h;
  send_held = λ m n q h. Memᴰ.append_left (n ∷ []) h;
  send_parked = λ m n q h. h;
  redrive_held = λ m q h. inr (Memᴰ.append_left q.1 h);
  redrive_parked = λ m q h. Memᴰ.append_right q.0 h;
  names_one = λ r m n e f. sym e ∙ f;
}

abbrev start : Worker Lists (List ℕ)
start = record { queue = ("{}" ∷ [], []); store = [] }

abbrev polls : List Arrival
polls = arrived "{" ∷ polled (good ∷ bad ∷ []) ∷ redriven ∷ polled (again ∷ []) ∷ []

message_never_lost_example :
    let v = run parse memory_store list_queue polls start in
    IsAccounted parse memory_store list_queue memory_laws list_laws "{}" v
    × ((write_events memory_store (sort_messages parse (again ∷ [])).events v.store).0 ≡ false
        → Memᴰ again (again ∷ [])
        → (e : ℕ) → parse again.body ≡ some e
        → Memᴰ e (memory_laws.rows (round parse memory_store list_queue (again ∷ []) v).store))
message_never_lost_example =
    message_never_lost parse memory_store list_queue memory_laws list_laws "{}" polls again
      (again ∷ []) start
      (tt, ((("{}", refl, refl), (("{", refl, refl), tt)), (tt, ((("{}", refl, refl), tt), tt))))
      (Memᴰ.head refl)
