-- ===== src/Outbox/Attempts.antt =====
-- The life of one event under retries: attempts that follow one another, each a claim and then the
-- settlement by the handler's verdict.
use yop_pms.Prelude.{
  ℕ, zero, suc, ◌+◌, ◌≤◌, ◌<◌, ◌≡◌, refl, String, true, false, ◌&&◌, some, List, leb, ◌==◌,
  if◌then◌else◌, find_where, find-update_some, find_holds, arith,
}
use yop_pms.Outbox.{Event, pending, completed, failed, is_open, as_claimed, backoff_seconds}
use yop_pms.Outbox.Engine.{
  refused, Handler, handler_of, settle_error, decide, settled, process, as_retried,
}

-- An attempt at a time, by a handler that is registered for the event's type.
unfoldable pub attempt : ℕ → Handler → ℕ → Event → Event
unfolding decide
attempt max_retries h now e = settled now (decide max_retries (some h) now e) (as_claimed now e)

-- Attempts at the times `start`, `start + 1`, … of a schedule.
unfoldable pub attempts : ℕ → Handler → (ℕ → ℕ) → ℕ → Event → Event
unfolding attempt
attempts max_retries h schedule zero e = e
attempts max_retries h schedule (suc n) e =
    attempt max_retries h (schedule n) (attempts max_retries h schedule n e)

-- An open event has a retry left, and no event has used more than there are.
abbrev pub InBudget : ℕ → Event → Type 0
InBudget max_retries e =
    (e.retry_count ≤ max_retries) × ((is_open e.status && leb max_retries e.retry_count) ≡ false)

-- However its handler answers, an open event that is in its budget is in it after an attempt.
pub attempt-InBudget :
    (max_retries now : ℕ) (h : Handler) (e : Event)
    → is_open e.status ≡ true
    → InBudget max_retries e
    → InBudget max_retries (attempt max_retries h now e)
unfolding attempt decide settle_error
attempt-InBudget max_retries now h e o b = ground arith

refused-attempt :
    (max_retries now : ℕ) (h : Handler) (e : Event) (message : String)
    → h now e.payload ≡ refused message
    → ((attempt max_retries h now e).retry_count ≡ suc e.retry_count)
      × ((attempt max_retries h now e).payload ≡ e.payload)
      × ((attempt max_retries h now e).status
          ≡ (if leb max_retries (suc e.retry_count) then failed else pending))
unfolding attempt decide settle_error
refused-attempt max_retries now h e message r = ground arith

-- An event whose handler refuses every time is dead-lettered by its last retry and not before: after
-- `n` attempts it is pending with `n` more retries on its count, and failed once the count is
-- `max_retries`.
pub attempts-exhaust :
    (max_retries n : ℕ) (h : Handler) (schedule : ℕ → ℕ) (e : Event)
    → ((now : ℕ) → (message : String) × (h now e.payload ≡ refused message))
    → e.status ≡ pending
    → e.retry_count < max_retries
    → e.retry_count + n ≤ max_retries
    → ((attempts max_retries h schedule n e).retry_count ≡ e.retry_count + n)
      × ((attempts max_retries h schedule n e).status
          ≡ (if e.retry_count + n == max_retries then failed else pending))
      × ((attempts max_retries h schedule n e).payload ≡ e.payload)
unfolding attempts
attempts-exhaust max_retries zero h schedule e r p b c = ground arith
attempts-exhaust max_retries (suc n) h schedule e r p b c =
    let before = attempts-exhaust max_retries n h schedule e r p b (omega arith) in
    let answer = r (schedule n) in
    ground (
      arith,
      before,
      answer.1,
      refused-attempt max_retries (schedule n) h (attempts max_retries h schedule n e) answer.0,
    )

-- A settlement goes by the row's id and looks at no status: a row that another claim has completed in
-- the meantime is pending again, due after the backoff, where the handler of a claim that is still at
-- work refuses with a retry left.
pub process-reopens :
    (max_retries now : ℕ) (handlers : List (String × Handler)) (h : Handler) (message : String)
    (r row : Event) (table : List Event)
    → handler_of r.event_type handlers ≡ some h
    → h now r.payload ≡ refused message
    → suc r.retry_count < max_retries
    → row.status ≡ completed
    → find_where (λ e. e.id == r.id) table ≡ some row
    → find_where (λ e. e.id == r.id) (process max_retries handlers true now r table)
      ≡ some (as_retried now (backoff_seconds r.retry_count) message row)
unfolding process decide settle_error
process-reopens max_retries now handlers h message r row table f g b c e =
    let found = find_holds (λ e. e.id == r.id) table row e in
    let after =
      find-update_some (λ e. e.id == r.id) (λ e. e.id == r.id)
        (as_retried now (backoff_seconds r.retry_count) message) table row (λ y. refl) e in
    rw (f, g, not_last) (ground (arith, after, found))
  where
    not_last : leb max_retries (r.retry_count + 1) ≡ false
    not_last = ground arith
