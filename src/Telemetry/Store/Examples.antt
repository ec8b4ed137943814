-- ===== src/Telemetry/Store/Examples.antt =====
-- Batches that are written to a table kept as a list, which never refuses a row.
use mathlib.Core.List.Memᴰ
use dial_pass.Prelude.{
  ℕ, ◌+◌, ◌≡◌, refl, String, false, Option, none, some, List, [], ◌∷◌, ◌++◌, map, str_eq,
  if◌then◌else◌,
}
use dial_pass.Worker.{Message, receipt, sort_messages, unreadable}
use dial_pass.Worker.Loop.{Queue, Worker, delete_messages, round}
use dial_pass.Telemetry.Store.{
  Json, object, other, Row, Connection, postgres_store, rows_of, row_of,
}
use dial_pass.Prelude.Dict.{lookup}
use dial_pass.Telemetry.Store.Rows.{TableLaws, payloads, write_many-payloads, value_blocks_batch}

abbrev text : ℕ → String
text n = "CA1"

abbrev number : ℕ → Option ℕ
number n = some n

abbrev list_table : Connection ℕ ℕ (List (Row ℕ ℕ))
list_table = record { insert_rows = λ rs db. (false, db ++ rs); disconnect = λ db. db }

abbrev list_table_laws : TableLaws list_table
list_table_laws = record {
  table = λ db. db;
  inserted = λ rs db fine. refl;
  kept = λ rs db r h. Memᴰ.append_left rs h;
}

abbrev started : Json ℕ
started = object (("call_id", 1) ∷ ("t", 2) ∷ ("kind", 3) ∷ [])

write_many-payloads_example :
    let after =
      ((postgres_store text number 0 list_table).write_many (started ∷ started ∷ []) []).1 in
    payloads text number 0 list_table after
    ≡ payloads text number 0 list_table [] ++ started ∷ started ∷ []
unfolding postgres_store rows_of row_of lookup
write_many-payloads_example =
    write_many-payloads text number 0 list_table list_table_laws (started ∷ started ∷ []) [] refl

abbrev parse : String → Option (Json ℕ)
parse body =
    if str_eq body "{}" then some started else if str_eq body "7" then some (other 7) else none

abbrev batch : List Message
batch =
    record { message_id = "1"; receipt_handle = "r1"; body = "{}" }
    ∷ record { message_id = "2"; receipt_handle = "r2"; body = "7" }
    ∷ record { message_id = "3"; receipt_handle = "r3"; body = "{" }
    ∷ []

-- A queue that only counts the deletions.
abbrev counted : Queue ℕ
counted = record { delete = λ rs n. n + 1; send = λ m n. n; redrive = λ q. q }

abbrev idle : Worker ℕ (List (Row ℕ ℕ))
idle = record { queue = 0; store = [] }

value_blocks_batch_example :
    round parse (postgres_store text number 0 list_table) counted batch idle ≡ record {
      queue = delete_messages counted (map receipt (unreadable parse batch)) 0;
      store = [];
    }
unfolding sort_messages
value_blocks_batch_example =
    value_blocks_batch text number 0 list_table parse counted batch (started ∷ []) [] 7 idle refl
