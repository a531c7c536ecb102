-- ===== src/Outbox/Examples.antt =====
-- The outbox of internal/platform/worker at concrete rows.
use yop_pms.Prelude.{
  ℕ, ◌+◌, ◌*◌, ◌≡◌, refl, Bool, true, false, none, All, count_where, List, [], ◌∷◌, ◌==◌,
  if◌then◌else◌, any_where, arith,
}
use yop_pms.Calendar.{second}
use yop_pms.Outbox.{Event, pending, failed, is_among, due_batch, claim_batch}
use yop_pms.Outbox.Engine.{Handler, refused}
use yop_pms.Outbox.Claims.{ClaimTurn, claim_all, claim_batch-exclusive}
use yop_pms.Outbox.Counting.{due_at}
use yop_pms.Outbox.Progress.{
  Turn, claims, processes, enqueues, ComesAfter, take_turns, take_turns-empties,
}
use yop_pms.Outbox.Attempts.{attempts, attempts-exhaust}

abbrev email : ℕ → Event
email id = record {
  id = id;
  event_type = "reservation.confirmed";
  payload = "{}";
  status = pending;
  retry_count = 0;
  last_error = none;
  process_at = 5 * second;
  updated_at = 5 * second;
}

abbrev two_emails : List Event
two_emails = email 1 ∷ email 2 ∷ []

abbrev nobody : ℕ → Bool
nobody id = false

abbrev mail_down : Handler
mail_down now payload = refused "connection refused"

-- A second engine claims one row in between.
abbrev between : List ClaimTurn
between = record { at = 6 * second; size = 1; locked = nobody } ∷ []

claim_batch-exclusive_example :
    any_where (is_among (due_batch (6 * second) nobody 1 two_emails)) (
      due_batch
        (7 * second)
        nobody
        10
        (claim_all between (claim_batch (6 * second) nobody 1 two_emails)))
    ≡ false
claim_batch-exclusive_example =
    claim_batch-exclusive (6 * second) (7 * second) 1 10 nobody nobody between two_emails
      (omega arith, tt) (omega arith)

attempts-exhaust_example :
    ((attempts 3 mail_down (λ n. n * 3600 * second) 3 (email 1)).retry_count ≡ 0 + 3)
    × ((attempts 3 mail_down (λ n. n * 3600 * second) 3 (email 1)).status
        ≡ (if 0 + 3 == 3 then failed else pending))
    × ((attempts 3 mail_down (λ n. n * 3600 * second) 3 (email 1)).payload ≡ "{}")
attempts-exhaust_example =
    attempts-exhaust 3 3 mail_down (λ n. n * 3600 * second) (email 1)
      (λ now. ("connection refused", refl)) refl (omega arith) (omega arith)

abbrev ticks : List Turn
ticks =
    claims (6 * second)
    ∷ processes (6 * second) true (email 1)
    ∷ enqueues 3 (6 * second) "reservation.confirmed" "{}" (6 * second)
    ∷ claims (7 * second)
    ∷ []

ticks_later : All (ComesAfter (5 * second)) ticks
ticks_later = (omega arith, (omega arith, (omega arith, (omega arith, tt))))

two_due : count_where (due_at (5 * second)) two_emails ≡ 2
unfolding count_where
two_due = refl

take_turns-empties_example :
    count_where (due_at (5 * second)) (take_turns 3 [] 1 ticks two_emails) ≡ 0
take_turns-empties_example =
    take_turns-empties 3 [] 1 (5 * second) ticks two_emails ticks_later (omega (arith, two_due))
