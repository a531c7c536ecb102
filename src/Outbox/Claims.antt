-- ===== src/Outbox/Claims.antt =====
-- The claim of a batch: which rows it takes, and what a second claim finds.
use yop_pms.Prelude.{
  ℕ, zero, suc, ◌+◌, ◌<◌, ◌≤◌, ◌≡◌, refl, ◌∙◌, Bool, false, ◌||◌, List, [], ◌∷◌, All, take,
  any_where, select_where, update_where, arith,
}
use yop_pms.Outbox.{
  Event, is_due, insert_by_time, sort_by_time, visibility_timeout, as_claimed, is_among, due_batch,
  claim_batch,
}

module _ (q : Event → Bool) where
  any-insert :
      (e : Event) (events : List Event)
      → any_where q (insert_by_time e events) ≡ (q e || any_where q events)
  unfolding insert_by_time any_where
  any-insert e [] = refl
  any-insert e (f ∷ events) = ground (arith, any-insert e events)

  any-sort : (events : List Event) → any_where q (sort_by_time events) ≡ any_where q events
  unfolding sort_by_time any_where
  any-sort [] = refl
  any-sort (e ∷ events) = ground (arith, any-insert e (sort_by_time events), any-sort events)

  any-take_le :
      (n : ℕ) (events : List Event)
      → any_where q events ≡ false
      → any_where q (take n events) ≡ false
  unfolding any_where
  any-take_le zero events h = refl
  any-take_le (suc n) [] h = refl
  any-take_le (suc n) (e ∷ events) h = ground (arith, any-take_le n events)

  any-batch :
      (now : ℕ) (locked : ℕ → Bool) (size : ℕ) (table : List Event)
      → any_where q (select_where (is_due now locked) table) ≡ false
      → any_where q (due_batch now locked size table) ≡ false
  unfolding due_batch
  any-batch now locked size table h =
      any-take_le size (sort_by_time (select_where (is_due now locked) table))
        (any-sort (select_where (is_due now locked) table) ∙ h)

  -- A row that the first claim has taken is not due until its timeout is over.
  any-after :
      (now later : ℕ) (locked : ℕ → Bool) (table : List Event)
      → later < now + visibility_timeout
      → any_where q (select_where (is_due later locked) (update_where q (as_claimed now) table))
        ≡ false
  unfolding any_where select_where update_where
  any-after now later locked [] h = refl
  any-after now later locked (e ∷ table) h = ground (arith, any-after now later locked table h)

-- A claim that an engine makes: its time, its batch size, and the rows that others hold locked.
pub record ClaimTurn : Type 0 where
  pub at : ℕ
  pub size : ℕ
  pub locked : ℕ → Bool

-- The table after one claim and the next.
unfoldable pub claim_all : List ClaimTurn → List Event → List Event
claim_all [] table = table
claim_all (c ∷ cs) table = claim_all cs (claim_batch c.at c.locked c.size table)

-- What a claim takes is not due again before the end of its own timeout, and other rows are as they were.
due-claim :
    (q b : Event → Bool) (later at now : ℕ) (locked : ℕ → Bool) (table : List Event)
    → now ≤ at
    → later < now + visibility_timeout
    → any_where q (select_where (is_due later locked) table) ≡ false
    → any_where q (select_where (is_due later locked) (update_where b (as_claimed at) table))
      ≡ false
unfolding any_where select_where update_where
due-claim q b later at now locked [] a h n = refl
due-claim q b later at now locked (e ∷ table) a h n =
    ground (arith, a, h, n, due-claim q b later at now locked table a h)

due-claims :
    (q : Event → Bool) (later now : ℕ) (locked : ℕ → Bool) (cs : List ClaimTurn)
    (table : List Event)
    → All (λ c. now ≤ c.at) cs
    → later < now + visibility_timeout
    → any_where q (select_where (is_due later locked) table) ≡ false
    → any_where q (select_where (is_due later locked) (claim_all cs table)) ≡ false
unfolding claim_all claim_batch
due-claims q later now locked [] table a h n = n
due-claims q later now locked (c ∷ cs) table a h n =
    due-claims q later now locked cs (claim_batch c.at c.locked c.size table) a.1 h (
      due-claim q (is_among (due_batch c.at c.locked c.size table)) later c.at now locked table a.0
        h n)

-- After a claim, and any number of further claims at that time or later with nothing else between them, no claim made before the
-- visibility timeout of the first is over takes a row of its batch, whatever rows are locked. A settlement may
-- set a row back to pending, and is not one of these steps.
pub claim_batch-exclusive :
    (now later size size' : ℕ) (locked locked' : ℕ → Bool) (cs : List ClaimTurn)
    (table : List Event)
    → All (λ c. now ≤ c.at) cs
    → later < now + visibility_timeout
    → any_where
        (is_among (due_batch now locked size table))
        (due_batch later locked' size' (claim_all cs (claim_batch now locked size table)))
      ≡ false
unfolding claim_batch
claim_batch-exclusive now later size size' locked locked' cs table a h =
    let q = is_among (due_batch now locked size table) in
    any-batch q later locked' size' (claim_all cs (update_where q (as_claimed now) table)) (
      due-claims q later now locked' cs (update_where q (as_claimed now) table) a h
        (any-after q now later locked' table h))
