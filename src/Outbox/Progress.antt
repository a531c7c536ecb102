-- ===== src/Outbox/Progress.antt =====
-- The engine gets to every event: which of them it has claimed after so many ticks.
use yop_pms.Prelude.{
  ℕ, suc, ◌+◌, ◌-◌, ◌*◌, ◌≤◌, ◌<◌, ◌≡◌, String, Bool, true, false, ◌&&◌, List, [], ◌∷◌, leb, All,
  count_where, select_where, least, arith, Option, none, some, ◌==◌, inl, inr, Bool-cases,
}
use yop_pms.Outbox.{
  Event, is_open, is_due, is_among, sort_by_time, due_batch, claim_batch, as_claimed, enqueue_at,
}
use yop_pms.Outbox.Engine.{
  Handler, Settlement, complete, leave, retry, dead_letter, decide, settled, process, handler_of,
  settle_error, of_verdict, Verdict, succeeded, cancelled, refused,
}
use yop_pms.Outbox.Backoff.{backoff_seconds-least}
use yop_pms.Outbox.Counting.{
  due_at, count-update_le, count-update_out, count-select, count-select_le, count-take_le,
  count-append_out, count-sort, sort-Ordered, count-take_first, count-among,
}

-- What happens to the table: a tick of the engine claims a batch, a row that was claimed is processed, with the
-- database reachable or not, and a transaction leaves an event.
pub data Turn : Type 0 where
  claims : ℕ → Turn
  processes : ℕ → Bool → Event → Turn
  enqueues : ℕ → ℕ → String → String → ℕ → Turn

abbrev nobody : ℕ → Bool
nobody id = false

module _ (max_retries : ℕ) (handlers : List (String × Handler)) (size : ℕ) where
  abbrev pub take_turn : Turn → List Event → List Event
  take_turn (claims now) table = claim_batch now nobody size table
  take_turn (processes now reachable r) table = process max_retries handlers reachable now r table
  take_turn (enqueues id now event_type payload process_at) table =
      enqueue_at id now event_type payload process_at table

  unfoldable pub take_turns : List Turn → List Event → List Event
  unfolding claim_batch process enqueue_at
  take_turns [] table = table
  take_turns (turn ∷ turns) table = take_turns turns (take_turn turn table)

-- Nothing of a turn lies before `t`, and no event is left for that time or an earlier one.
abbrev pub ComesAfter : ℕ → Turn → Type 0
ComesAfter t (claims now) = t ≤ now
ComesAfter t (processes now reachable r) = t ≤ now
ComesAfter t (enqueues id now event_type payload process_at) = t < process_at

abbrev pub claims_in : List Turn → ℕ
claims_in [] = 0
claims_in (claims now ∷ turns) = suc (claims_in turns)
claims_in (turn ∷ turns) = claims_in turns

open_due : (t now : ℕ) (e : Event) → t ≤ now → due_at t e ≡ true → is_due now nobody e ≡ true
open_due t now e h d = ground (arith, h, d)

claimed_later : (t now : ℕ) (e : Event) → t ≤ now → due_at t (as_claimed now e) ≡ false
claimed_later t now e h = ground (arith, h)

open_selected :
    (now : ℕ) (table : List Event)
    → All (λ e. is_open e.status ≡ true) (select_where (is_due now nobody) table)
unfolding select_where
open_selected now [] = tt
open_selected now (e ∷ table) = ground (arith, open_selected now table)

batch_first :
    (t now size : ℕ) (table : List Event)
    → t ≤ now
    → least size (count_where (due_at t) table)
      ≤ count_where (due_at t) (due_batch now nobody size table)
unfolding due_batch
batch_first t now size table h =
    let due = select_where (is_due now nobody) table in
    ground (
      arith,
      count-select (due_at t) (is_due now nobody) table (λ e d. open_due t now e h d),
      count-sort (due_at t) due,
      count-take_first t size (sort_by_time due) (sort-Ordered due (open_selected now table)),
    )

batch_le :
    (p : Event → Bool) (now size : ℕ) (table : List Event)
    → count_where p (due_batch now nobody size table) ≤ count_where p table
unfolding due_batch
batch_le p now size table =
    let due = select_where (is_due now nobody) table in
    omega (
      arith,
      count-take_le p size (sort_by_time due),
      count-sort p due,
      count-select_le p (is_due now nobody) table,
    )

-- A claim takes as many rows out of those that are due at `t` as a batch holds, if there are as many.
claim_batch-takes :
    (t now size : ℕ) (table : List Event)
    → t ≤ now
    → count_where (due_at t) (claim_batch now nobody size table)
      ≤ count_where (due_at t) table - size
unfolding claim_batch
claim_batch-takes t now size table h =
    let q = is_among (due_batch now nobody size table) in
    ground (
      arith,
      count-update_out (due_at t) q (as_claimed now) table (λ e. claimed_later t now e h),
      batch_le (λ e. due_at t e && q e) now size table,
      count-among (due_at t) (due_batch now nobody size table),
      batch_first t now size table h,
    )

-- A retry is put off by a second at least.
abbrev Waits : Settlement → Type 0
Waits (retry backoff message) = 1 ≤ backoff
Waits _ = Unit

settle_error-Waits : (n k : ℕ) (message : String) → Waits (settle_error n k message)
unfolding settle_error
settle_error-Waits n k message = elim (Bool-cases (leb n (k + 1))) [
  | inl e ↦ rw e tt
  | inr e ↦ rw e (backoff_seconds-least k).1
]

verdict-Waits : (n k : ℕ) (v : Verdict) → Waits (of_verdict n k v)
verdict-Waits n k succeeded = tt
verdict-Waits n k cancelled = tt
verdict-Waits n k (refused message) = settle_error-Waits n k message

decide-Waits : (n : ℕ) (h : Option Handler) (now : ℕ) (r : Event) → Waits (decide n h now r)
unfolding decide
decide-Waits n none now r = tt
decide-Waits n (some h) now r = verdict-Waits n r.retry_count (h now r.payload)

settled-due :
    (t now : ℕ) (e : Event) (s : Settlement)
    → t ≤ now
    → Waits s
    → due_at t (settled now s e) ≡ true
    → due_at t e ≡ true
settled-due t now e complete h w d = cc
settled-due t now e leave h w d = d
settled-due t now e (retry backoff message) h w d = ground (arith, h, w, d)
settled-due t now e (dead_letter bump message) h w d = cc

module _ (max_retries : ℕ) (handlers : List (String × Handler)) (size t : ℕ) where
  process-due :
      (now : ℕ) (reachable : Bool) (r : Event) (table : List Event)
      → t ≤ now
      → count_where (due_at t) (process max_retries handlers reachable now r table)
        ≤ count_where (due_at t) table
  unfolding process
  process-due now true r table h =
      let s = decide max_retries (handler_of r.event_type handlers) now r in
      count-update_le (due_at t) (λ e. e.id == r.id) (settled now s) table
        (λ e d.
          settled-due t now e s h
            (decide-Waits max_retries (handler_of r.event_type handlers) now r) d)
  process-due now false r table h = omega arith

  enqueue-due :
      (id now process_at : ℕ) (event_type payload : String) (table : List Event)
      → t < process_at
      → count_where (due_at t) (enqueue_at id now event_type payload process_at table)
        ≡ count_where (due_at t) table
  unfolding enqueue_at
  enqueue-due id now process_at event_type payload table h =
      count-append_out (due_at t) table _ (ground (arith, h))

  -- A tick takes a batch out of the open events that are due at `t`, and nothing else adds to them.
  take_turns-due :
      (turns : List Turn) (table : List Event)
      → All (ComesAfter t) turns
      → count_where (due_at t) (take_turns max_retries handlers size turns table)
        ≤ count_where (due_at t) table - claims_in turns * size
  unfolding take_turns
  take_turns-due [] table a = omega arith
  take_turns-due (claims now ∷ turns) table a = omega (
    arith,
    claim_batch-takes t now size table a.0,
    take_turns-due turns (claim_batch now nobody size table) a.1,
  )
  take_turns-due (processes now reachable r ∷ turns) table a = omega (
    arith,
    process-due now reachable r table a.0,
    take_turns-due turns (process max_retries handlers reachable now r table) a.1,
  )
  take_turns-due (enqueues id now event_type payload process_at ∷ turns) table a = omega (
    arith,
    enqueue-due id now process_at event_type payload table a.0,
    take_turns-due turns (enqueue_at id now event_type payload process_at table) a.1,
  )

  -- Every event is claimed in the end: after as many ticks of the engine as it takes batches to hold the open
  -- events that are due at `t`, none of them is left open with its time, whatever is processed, with the database
  -- reachable or not, and enqueued for later meanwhile. No other transaction holds a row locked at a tick.
  pub take_turns-empties :
      (turns : List Turn) (table : List Event)
      → All (ComesAfter t) turns
      → count_where (due_at t) table ≤ claims_in turns * size
      → count_where (due_at t) (take_turns max_retries handlers size turns table) ≡ 0
  take_turns-empties turns table a h = omega (arith, take_turns-due turns table a)
