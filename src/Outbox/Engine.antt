-- ===== src/Outbox/Engine.antt =====
-- internal/platform/worker/engine.go: what the engine does with a claimed row.
use yop_pms.Prelude.{
  ℕ, ◌+◌, ◌*◌, String, Bool, true, false, Option, none, some, List, [], ◌∷◌, leb, ◌==◌,
  if◌then◌else◌, update_where,
}
use Prim.Native.String.{◌++◌ as append}
use text.Mathlib.Text.{◌==◌ as str_eq}
use yop_pms.Calendar.{second}
use yop_pms.Outbox.{Event, pending, completed, failed, backoff_seconds}

-- What a handler returns: nil, an error of its context, or any other error.
pub data Verdict : Type 0 where
  succeeded cancelled : Verdict
  refused : String → Verdict

-- A handler is code that the caller registers: its verdict on a payload, at a time.
abbrev pub Handler : Type 0
Handler = ℕ → String → Verdict

-- Register: the later handler of a type stands in place of the earlier one.
unfoldable pub register : String → Handler → List (String × Handler) → List (String × Handler)
register t h [] = (t, h) ∷ []
register t h ((u, g) ∷ handlers) =
    let rest = register t h handlers in if str_eq u t then (t, h) ∷ handlers else (u, g) ∷ rest

unfoldable pub handler_of : String → List (String × Handler) → Option Handler
handler_of t [] = none
handler_of t ((u, g) ∷ handlers) =
    let rest = handler_of t handlers in if str_eq u t then some g else rest

-- The three statements that settle a row.
abbrev pub as_completed : ℕ → Event → Event
as_completed now e = record e { status = completed; updated_at = now }

abbrev pub as_retried : ℕ → ℕ → String → Event → Event
as_retried now backoff message e = record e {
  status = pending;
  retry_count = e.retry_count + 1;
  last_error = some message;
  process_at = now + backoff * second;
  updated_at = now;
}

abbrev pub as_failed : ℕ → Bool → String → Event → Event
as_failed now bump message e = record e {
  status = failed;
  retry_count = if bump then e.retry_count + 1 else e.retry_count;
  last_error = some message;
  updated_at = now;
}

-- The update that a claimed row is settled by, if any: `process`, with the row's retry count and
-- handler at the time of the claim.
pub data Settlement : Type 0 where
  complete leave : Settlement
  retry : ℕ → String → Settlement
  dead_letter : Bool → String → Settlement

unfoldable pub settle_error : ℕ → ℕ → String → Settlement
settle_error max_retries retry_count message =
    if leb max_retries (retry_count + 1)
    then dead_letter true message
    else retry (backoff_seconds retry_count) message

abbrev pub of_verdict : ℕ → ℕ → Verdict → Settlement
of_verdict max_retries retry_count succeeded = complete
of_verdict max_retries retry_count cancelled = leave
of_verdict max_retries retry_count (refused message) = settle_error max_retries retry_count message

unfoldable pub decide : ℕ → Option Handler → ℕ → Event → Settlement
unfolding settle_error
decide max_retries none now r =
    dead_letter false (append "no handler registered for event_type: " r.event_type)
decide max_retries (some h) now r = of_verdict max_retries r.retry_count (h now r.payload)

abbrev pub settled : ℕ → Settlement → Event → Event
settled now complete e = as_completed now e
settled now leave e = e
settled now (retry backoff message) e = as_retried now backoff message e
settled now (dead_letter bump message) e = as_failed now bump message e

-- process: the update runs by the row's id, whatever its status is by then, and may fail.
unfoldable pub process : ℕ → List (String × Handler) → Bool → ℕ → Event → List Event → List Event
unfolding decide handler_of
process max_retries handlers reachable now r table =
    let s = decide max_retries (handler_of r.event_type handlers) now r in
    if reachable then update_where (λ e. e.id == r.id) (settled now s) table else table

-- The notification on `outbox_dead_lettered`, which follows the update of a failed row.
pub record DeadLetter : Type 0 where
  pub id : ℕ
  pub event_type : String
  pub last_error : String

unfoldable pub dead_letters : Settlement → Bool → Event → List DeadLetter
dead_letters (dead_letter bump message) true r =
    record { id = r.id; event_type = r.event_type; last_error = message } ∷ []
dead_letters _ reachable r = []
