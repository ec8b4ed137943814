-- ===== src/Telemetry/Sink.antt =====
-- src/dialpass/telemetry/sqs_sink.py: the bounded queue between the call and SQS. A body is the text
-- that `emit` has serialized. What the client of SQS answers to a batch is a parameter: it raises, or
-- it names the entries that failed, which by its documentation are entries of the request.
pub mod Accounts
mod Examples
use dial_pass.Prelude.Dict.{Dict, insert}
use dial_pass.Prelude.Text.{is_empty}
use dial_pass.Prelude.{
  ℕ, zero, suc, ◌+◌, ◌-◌, min, String, Bool, true, false, ◌&&◌, Option, none, some, List, [], ◌∷◌,
  ◌++◌, length, take, drop, ltb, leb, if◌then◌else◌,
}

pub record SqsSink : Type 0 where
  pub batch_size : ℕ
  pub send_retries : ℕ
  pub max_queue : ℕ
  pub waiting : List String  -- `_q`
  pub dropped_overflow : ℕ
  pub dropped_send : ℕ
  pub sent : ℕ

-- `_SQS_BATCH_MAX`
abbrev pub sqs_batch_max : ℕ
sqs_batch_max = 10

-- `__init__`
unfoldable pub new_sink : ℕ → ℕ → ℕ → SqsSink
new_sink max_queue batch_size send_retries = record {
  batch_size = min batch_size sqs_batch_max;
  send_retries = send_retries;
  max_queue = max_queue;
  waiting = [];
  dropped_overflow = 0;
  dropped_send = 0;
  sent = 0;
}

-- `Queue.full`: a queue of size 0 has no bound.
abbrev pub is_full : SqsSink → Bool
is_full s = ltb 0 s.max_queue && leb s.max_queue (length s.waiting)

-- `emit`, of the body, or of an event that cannot be serialized.
unfoldable pub emit : Option String → SqsSink → SqsSink
emit none s = s
emit (some body) s =
    if is_full s
    then record s { dropped_overflow = s.dropped_overflow + 1 }
    else record s { waiting = s.waiting ++ body ∷ [] }

-- `_next_batch`, which takes one body and then goes on up to the size; none where the queue is empty.
unfoldable pub next_batch : SqsSink → List String × SqsSink
next_batch s =
    let n = (if leb s.batch_size 1 then 1 else s.batch_size) in
    (take n s.waiting, record s { waiting = drop n s.waiting })

abbrev pub Entry : Type 0
Entry = ℕ × String

-- The entries of a batch, with their numbers from `i`.
unfoldable pub entries_from : ℕ → List String → List Entry
entries_from i [] = []
entries_from i (b ∷ bs) = (i, b) ∷ entries_from (i + 1) bs

-- The client's answer to the entries on an attempt: it raised, or the entries that failed.
abbrev pub Client : Type 0
Client = ℕ → List Entry → Option (ℕ → Bool)

unfoldable pub failed_of : (ℕ → Bool) → List Entry → List Entry
failed_of bad [] = []
failed_of bad ((i, b) ∷ es) = let rest = failed_of bad es in if bad i then (i, b) ∷ rest else rest

abbrev pub is_nil {ℓ} : {A : Type ℓ} → List A → Bool
is_nil [] = true
is_nil (x ∷ xs) = false

-- One attempt of `_send`, and the attempts that are left.
unfoldable pub on_answer :
    Option (ℕ → Bool) → List Entry → SqsSink → (List Entry → SqsSink → SqsSink) → SqsSink
on_answer none es s retry = retry es s
on_answer (some bad) es s retry =
    let left = failed_of bad es in
    let t = record s { sent = s.sent + (length es - length left) } in
    if is_nil left then t else retry left t

-- The loop of `_send`, with the attempts that are left and the number of the next.
unfoldable pub attempts : ℕ → ℕ → Client → List Entry → SqsSink → SqsSink
unfolding on_answer
attempts zero n client es s = record s { dropped_send = s.dropped_send + length es }
attempts (suc fuel) n client es s =
    on_answer (client n es) es s (λ es t. attempts fuel (n + 1) client es t)

-- `_send`
unfoldable pub send : Client → List String → SqsSink → SqsSink
unfolding attempts entries_from
send client bodies s = attempts s.send_retries 1 client (entries_from 0 bodies) s

-- One round of the pump thread, `_run`: a batch, if there is one, is sent.
unfoldable pub pump : Client → SqsSink → SqsSink
unfolding next_batch send
pump client s = let (batch, t) = next_batch s in if is_nil batch then t else send client batch t

-- The final drain of `_run`, on fuel, with the client's answers to each batch.
unfoldable pub drain : ℕ → (ℕ → Client) → SqsSink → SqsSink
unfolding pump
drain zero clients s = s
drain (suc fuel) clients s =
    let rest = drain fuel clients (pump (clients fuel) s) in if is_nil s.waiting then s else rest

-- The arguments of `boto3.client("sqs")` in `build_sqs_client`, of the region and the endpoint.
unfoldable pub sqs_client_options : String → String → Dict String
sqs_client_options region endpoint =
    let options = ("region_name", region) ∷ [] in
    if is_empty endpoint then options else insert "endpoint_url" endpoint options
