-- ===== src/Outbox.antt =====
-- internal/platform/worker: the outbox. Events are rows of internal.outbox_events; the engine claims
-- those that are due, runs the handler of their type, and completes, retries or dead-letters them.
pub mod Engine
pub mod Claims
pub mod Attempts
pub mod Backoff
pub mod Counting
pub mod Progress
mod Examples
use yop_pms.Prelude.{
  ℕ, zero, suc, ◌+◌, ◌*◌, ◌^◌, String, Bool, true, false, not, ◌&&◌, ◌||◌, Option, none, some, List,
  [], ◌∷◌, ◌++◌, leb, ltb, ◌==◌, if◌then◌else◌, take, any_where, select_where, update_where, map,
}
use yop_pms.Calendar.{second}

pub data EventStatus : Type 0 where
  pending processing completed failed : EventStatus

-- internal.outbox_events; an instant is a number of nanoseconds.
pub record Event : Type 0 where
  pub id : ℕ
  pub event_type : String
  pub payload : String
  pub status : EventStatus
  pub retry_count : ℕ
  pub last_error : Option String
  pub process_at : ℕ
  pub updated_at : ℕ

-- EnqueueAt: the row that CreateOutboxEvent inserts, with the defaults of the table.
unfoldable pub enqueue_at : ℕ → ℕ → String → String → ℕ → List Event → List Event
enqueue_at id now event_type payload process_at table =
    table
    ++ record {
      id = id;
      event_type = event_type;
      payload = payload;
      status = pending;
      retry_count = 0;
      last_error = none;
      process_at = process_at;
      updated_at = now;
    }
      ∷ []

-- Enqueue
unfoldable pub enqueue : ℕ → ℕ → String → String → List Event → List Event
enqueue id now event_type payload table = enqueue_at id now event_type payload now table

pub record Config : Type 0 where
  pub poll_interval : ℕ
  pub batch_size : ℕ
  pub max_retries : ℕ

abbrev or_default : ℕ → ℕ → ℕ
or_default n d = if n == 0 then d else n

-- New: a zero is replaced by its default.
unfoldable pub new_config : Config → Config
new_config c = record {
  poll_interval = or_default c.poll_interval (5 * second);
  batch_size = or_default c.batch_size 10;
  max_retries = or_default c.max_retries 3;
}

-- backoffSeconds
unfoldable pub backoff_seconds : ℕ → ℕ
backoff_seconds retry_count = if leb 11 retry_count then 1800 else 2 ^ retry_count

-- status IN ('pending', 'processing')
abbrev pub is_open : EventStatus → Bool
is_open pending = true
is_open processing = true
is_open _ = false

-- The WHERE of the claim, and SKIP LOCKED.
abbrev pub is_due : ℕ → (ℕ → Bool) → Event → Bool
is_due now locked e = is_open e.status && leb e.process_at now && not (locked e.id)

-- ORDER BY process_at
unfoldable pub insert_by_time : Event → List Event → List Event
insert_by_time e [] = e ∷ []
insert_by_time e (f ∷ events) =
    let rest = insert_by_time e events in
    if leb e.process_at f.process_at then e ∷ f ∷ events else f ∷ rest

unfoldable pub sort_by_time : List Event → List Event
unfolding insert_by_time
sort_by_time [] = []
sort_by_time (e ∷ events) = insert_by_time e (sort_by_time events)

-- INTERVAL '5 minutes'
abbrev pub visibility_timeout : ℕ
visibility_timeout = 300 * second

abbrev pub as_claimed : ℕ → Event → Event
as_claimed now e = record e {
  status = processing;
  process_at = now + visibility_timeout;
  updated_at = now;
}

abbrev pub is_among : List Event → Event → Bool
is_among rows e = any_where (λ r. r.id == e.id) rows

-- The rows that a claim takes: at most the size of a batch.
unfoldable pub due_batch : ℕ → (ℕ → Bool) → ℕ → List Event → List Event
unfolding sort_by_time
due_batch now locked size table = take size (sort_by_time (select_where (is_due now locked) table))

-- claimBatch: the table after it. It returns the rows of `due_batch` with the columns id, event_type,
-- payload and retry_count, which the claim leaves alone.
unfoldable pub claim_batch : ℕ → (ℕ → Bool) → ℕ → List Event → List Event
unfolding due_batch
claim_batch now locked size table =
    update_where (is_among (due_batch now locked size table)) (as_claimed now) table
