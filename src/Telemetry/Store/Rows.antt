-- ===== src/Telemetry/Store/Rows.antt =====
-- What the stores of src/dialpass/telemetry/store.py keep, and what they make of a batch of the worker.
use dial_pass.Prelude.{
  ◌≡◌, refl, sym, ap, ◌∙◌, String, true, false, Option, none, some, List, [], ◌∷◌, ◌++◌, map, arith,
}
use mathlib.Core.List.{Memᴰ}
use mathlib.Core.List.Memᴰ
use mathlib.Core.List.{map-append}
use dial_pass.Prelude.Dict.{Dict}
use dial_pass.Worker.{Message, receipt, sort_messages, unreadable, handle_cases}
use dial_pass.Worker.Loop.{StoreLaws, Queue, Worker, write_events, delete_messages, round}
use dial_pass.Telemetry.Store.{
  Json, object, other, memory_store, logging_store, Row, Connection, number_at, with_t, row_of,
  add_row, rows_of, insert_all, postgres_store,
}

-- The stores in memory and in the log keep every event, and never raise.
unfoldable pub memory_laws : {E : Type 0} → StoreLaws (memory_store {E = E})
unfolding memory_store
memory_laws = record {
  rows = λ rows. rows;
  write_stored = λ es rows fine. refl;
  write_raised = λ es rows e h. Memᴰ.append_left es h;
}

unfoldable pub logging_laws : {E : Type 0} → StoreLaws (logging_store {E = E})
unfolding logging_store
logging_laws = record {
  rows = λ lines. lines;
  write_stored = λ es lines fine. refl;
  write_raised = λ es lines e h. Memᴰ.append_left es h;
}

-- What psycopg documents of `executemany` with autocommit: rows are added at the end of the table
-- unless it raises, and none that is there is removed.
pub record TableLaws {V N Db : Type 0} (connection : Connection V N Db) : Type 0 where
  pub table : Db → List (Row V N)
  pub inserted :
      (rs : List (Row V N)) (db : Db)
      → (connection.insert_rows rs db).0 ≡ false
      → table (connection.insert_rows rs db).1 ≡ table db ++ rs
  pub kept :
      (rs : List (Row V N)) (db : Db) (r : Row V N)
      → Memᴰ r (table db)
      → Memᴰ r (table (connection.insert_rows rs db).1)

module _ {V N Db : Type 0} (text : V → String) (number : V → Option N) (zero_seconds : N)
    (connection : Connection V N Db) where
  abbrev pub payloads : List (Row V N) → List (Json V)
  payloads rs = map Row.payload rs

  with_t-payload :
      (d : Dict V) (o : Option N) (r : Row V N)
      → with_t text number zero_seconds connection d o ≡ some r
      → r.payload ≡ object d
  with_t-payload d none r h = cc h
  with_t-payload d (some t) r h = ground (arith, h)

  row_of-payload :
      (e : Json V) (r : Row V N)
      → row_of text number zero_seconds connection e ≡ some r
      → r.payload ≡ e
  unfolding row_of
  row_of-payload (other v) r h = cc h
  row_of-payload (object d) r h =
      with_t-payload d (number_at text number zero_seconds connection "t" d) r h

  add_row-none : (o : Option (Row V N)) → add_row text number zero_seconds connection o none ≡ none
  add_row-none none = refl
  add_row-none (some r) = refl

  add_row-cases :
      (o : Option (Row V N)) (p : Option (List (Row V N))) (rs : List (Row V N))
      → add_row text number zero_seconds connection o p ≡ some rs
      → (r : Row V N) × (rest : List (Row V N)) × (o ≡ some r) × (p ≡ some rest) × (rs ≡ r ∷ rest)
  add_row-cases none p rs h = cc h
  add_row-cases (some r) none rs h = cc h
  add_row-cases (some r) (some rest) rs h = (r, rest, refl, refl, ground (arith, h))

  -- The payloads of the rows of a batch are the events of the batch.
  rows_of-payloads :
      (es : List (Json V)) (rs : List (Row V N))
      → rows_of text number zero_seconds connection es ≡ some rs
      → payloads rs ≡ es
  unfolding rows_of
  rows_of-payloads [] rs h = let e : rs ≡ [] = ground (arith, h) in rw e refl
  rows_of-payloads (e ∷ es) rs h =
      let (r, rest, one, more, all) =
        add_row-cases (row_of text number zero_seconds connection e)
          (rows_of text number zero_seconds connection es) rs h in
      rw all (rw (row_of-payload e r one, rows_of-payloads es rest more) refl)

  module _ (laws : TableLaws connection) where
    open laws use {table, inserted, kept}

    pub insert_all-stored :
        (o : Option (List (Row V N))) (es : List (Json V)) (db : Db)
        → rows_of text number zero_seconds connection es ≡ o
        → (insert_all text number zero_seconds connection o db).0 ≡ false
        → payloads (table (insert_all text number zero_seconds connection o db).1)
          ≡ payloads (table db) ++ es
    insert_all-stored none es db e fine = cc fine
    insert_all-stored (some rs) es db e fine =
        ap payloads (inserted rs db fine)
        ∙ map-append Row.payload (table db) rs
        ∙ ap (λ r. payloads (table db) ++ r) (rows_of-payloads es rs e)

    pub insert_all-kept :
        (o : Option (List (Row V N))) (e : Json V) (db : Db)
        → Memᴰ e (payloads (table db))
        → Memᴰ e (payloads (table (insert_all text number zero_seconds connection o db).1))
    insert_all-kept none e db h = h
    insert_all-kept (some rs) e db h =
        let (r, member, same) = Memᴰ.of_map Row.payload (table db) h in
        Memᴰ.cast (sym same) (Memᴰ.map Row.payload (kept rs db r member))

    -- The table keeps the whole of every event that it is given, as the payload of its row.
    unfoldable pub postgres_laws : StoreLaws (postgres_store text number zero_seconds connection)
    unfolding postgres_store
    postgres_laws = record {
      rows = λ db. payloads (table db);
      write_stored = λ es db fine.
          insert_all-stored (rows_of text number zero_seconds connection es) es db refl fine;
      write_raised =
          λ es db e h. insert_all-kept (rows_of text number zero_seconds connection es) e db h;
    }

    -- A write of a batch that does not raise adds one row for each event at the end of the table, whose
    -- payloads are the events, in order, whole.
    pub write_many-payloads :
        (es : List (Json V)) (db : Db)
        → ((postgres_store text number zero_seconds connection).write_many es db).0 ≡ false
        → payloads (table ((postgres_store text number zero_seconds connection).write_many es db).1)
          ≡ payloads (table db) ++ es
    unfolding postgres_store
    write_many-payloads es db fine =
        insert_all-stored (rows_of text number zero_seconds connection es) es db refl fine

  rows_of-other :
      (xs ys : List (Json V)) (v : V)
      → rows_of text number zero_seconds connection (xs ++ other v ∷ ys) ≡ none
  unfolding rows_of row_of
  rows_of-other [] ys v = refl
  rows_of-other (x ∷ xs) ys v =
      ap
        (add_row text number zero_seconds connection (row_of text number zero_seconds connection x))
        (rows_of-other xs ys v)
      ∙ add_row-none (row_of text number zero_seconds connection x)

  write_events-other :
      (xs ys : List (Json V)) (v : V) (db : Db)
      → write_events (postgres_store text number zero_seconds connection) (xs ++ other v ∷ ys) db
        ≡ (true, db)
  unfolding postgres_store
  write_events-other [] ys v db =
      ap (λ o. insert_all text number zero_seconds connection o db) (rows_of-other [] ys v)
  write_events-other (x ∷ xs) ys v db =
      ap (λ o. insert_all text number zero_seconds connection o db) (rows_of-other (x ∷ xs) ys v)

  -- If a body of a batch is JSON but no object, the write to Postgres raises, whatever the database
  -- does: no event of the batch is stored, and of its messages only those that cannot be read are
  -- deleted, so that all the others are delivered again.
  pub value_blocks_batch :
      {Q : Type 0} (parse : String → Option (Json V)) (queue : Queue Q) (ms : List Message)
      → (xs ys : List (Json V)) (v : V) (w : Worker Q Db)
      → (sort_messages parse ms).events ≡ xs ++ other v ∷ ys
      → round parse (postgres_store text number zero_seconds connection) queue ms w ≡ record {
        queue = delete_messages queue (map receipt (unreadable parse ms)) w.queue;
        store = w.store;
      }
  unfolding round
  value_blocks_batch parse queue ms xs ys v w e =
      let blocked : write_events (postgres_store text number zero_seconds connection)
            (sort_messages parse ms).events w.store
          ≡ (true, w.store) =
        rw e (write_events-other xs ys v w.store) in
      rw (blocked, ((handle_cases parse true ms).0 refl).1) refl
