-- ===== src/Telemetry/Store.antt =====
-- src/dialpass/telemetry/store.py: where the worker lands the events. An event is the value that JSON
-- gave. Python's `str` and `float` of a value and the database are parameters.
pub mod Rows
mod Examples
use dial_pass.Prelude.{
  ℕ, ◌≡◌, ◌⊎◌, refl, sym, ap, ◌∙◌, String, Bool, true, false, Option, none, some, List, [], ◌∷◌,
  ◌++◌, Option-cases, inl, inr, arith, if◌then◌else◌,
}
use mathlib.Core.List.{Memᴰ}
use mathlib.Core.List.Memᴰ
use dial_pass.Prelude.Dict.{Dict, lookup}
use dial_pass.Prelude.Text.{is_empty}
use dial_pass.Worker.Loop.{EventStore, StoreLaws}

-- What `json.loads` gives: an object, or any other value.
pub data Json (V : Type 0) : Type 0 where
  object : Dict V → Json V
  other : V → Json V

-- `InMemoryEventStore`, on its rows.
unfoldable pub memory_store : {E : Type 0} → EventStore E (List E)
memory_store = record { write_many = λ es rows. (false, rows ++ es); close = λ rows. rows }

-- `LoggingEventStore`, on the events that it has written to the log.
unfoldable pub logging_store : {E : Type 0} → EventStore E (List E)
logging_store = record { write_many = λ es lines. (false, lines ++ es); close = λ lines. lines }

-- A row of `call_events`; the identity and the time are the database's.
pub record Row (V N : Type 0) : Type 0 where
  pub call_id : String
  pub t : N
  pub kind : String
  pub payload : Json V

-- The connection of psycopg: whether `executemany` raises on the rows, and the database after it.
pub record Connection (V N Db : Type 0) : Type 0 where
  pub insert_rows : List (Row V N) → Db → Bool × Db
  pub disconnect : Db → Db

module _ {V N Db : Type 0} (text : V → String) (number : V → Option N) (zero_seconds : N)
    (connection : Connection V N Db) where
  -- `str(e.get(k, ""))` and `float(e.get("t", 0.0))`, which may raise.
  abbrev pub text_at : String → Dict V → String
  text_at k d = elim (lookup k d) [ none ↦ "" | some v ↦ text v ]

  abbrev pub number_at : String → Dict V → Option N
  number_at k d = elim (lookup k d) [ none ↦ some zero_seconds | some v ↦ number v ]

  abbrev pub with_t : Dict V → Option N → Option (Row V N)
  with_t d none = none
  with_t d (some t) =
      some (record {
        call_id = text_at "call_id" d;
        t = t;
        kind = text_at "kind" d;
        payload = object d;
      })

  -- A row of `write_many`; a value that is not an object has no `get`, which raises.
  unfoldable pub row_of : Json V → Option (Row V N)
  row_of (other v) = none
  row_of (object d) = with_t d (number_at "t" d)

  abbrev pub add_row : Option (Row V N) → Option (List (Row V N)) → Option (List (Row V N))
  add_row none rows = none
  add_row (some r) none = none
  add_row (some r) (some rows) = some (r ∷ rows)

  unfoldable pub rows_of : List (Json V) → Option (List (Row V N))
  rows_of [] = some []
  rows_of (e ∷ es) = add_row (row_of e) (rows_of es)

  abbrev pub insert_all : Option (List (Row V N)) → Db → Bool × Db
  insert_all none db = (true, db)
  insert_all (some rows) db = connection.insert_rows rows db

  -- `PostgresEventStore`
  unfoldable pub postgres_store : EventStore (Json V) Db
  postgres_store = record {
    write_many = λ es db. insert_all (rows_of es) db;
    close = connection.disconnect;
  }

-- What `build_store` builds.
pub data Store : Type 0 where
  to_postgres : String → Store
  to_log : Store

-- `build_store`, on `database_url`.
unfoldable pub build_store : String → Store
build_store url = if is_empty url then to_log else to_postgres url
