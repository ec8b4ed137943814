-- ===== src/Worker/Main.antt =====
-- `main` of src/dialpass/workers/telemetry_worker.py, but for the log and the signals, which stop it.
use dial_pass.Prelude.{String, Option, none, some, List, if◌then◌else◌}
use dial_pass.Prelude.Text.{is_empty}
use dial_pass.Worker.Loop.{EventStore, Queue, Worker, Arrival, run}
use dial_pass.Telemetry.Store.{Store, build_store}

-- What `main` polls, and the store that it builds.
pub record Setup : Type 0 where
  pub queue_url : String
  pub store : Store

-- `main` up to its loop, on `sqs_queue_url` and `database_url`; none where it raises `SystemExit`.
unfoldable pub set_up : String → String → Option Setup
unfolding build_store
set_up sqs_queue_url database_url =
    if is_empty sqs_queue_url
    then none
    else some (record { queue_url = sqs_queue_url; store = build_store database_url })

-- The `try` of `main`: the store is closed after the loop.
unfoldable pub work :
    {E S Q : Type 0}
    → (String → Option E)
    → EventStore E S
    → Queue Q
    → List Arrival
    → Worker Q S
    → Worker Q S
unfolding run
work parse store queue arrivals w =
    let v = run parse store queue arrivals w in record v { store = store.close v.store }
