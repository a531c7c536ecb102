-- ===== src/Availability/Count.antt =====
-- The number that `availQuery` of internal/booking/availability.go counts.
use yop_pms.Prelude.{
  ℕ, ◌+◌, ◌-◌, ◌≤◌, ◌≡◌, refl, List, [], ◌∷◌, if◌then◌else◌, any_where, count_where, arith,
}
use yop_pms.Store.{Db, LedgerRow, Room}
use yop_pms.Store.Keeps.NoDouble.{rows_at}
use yop_pms.Availability.{pos, minus, Scope, is_room_of, takes, available_on}

takes_none :
    (s : Scope) (date : ℕ) (ledger : List LedgerRow) → count_where (takes s [] date) ledger ≡ 0
unfolding count_where any_where
takes_none s date [] = refl
takes_none s date (l ∷ ledger) = ground (arith, takes_none s date ledger)

takes_more :
    (s : Scope) (r : Room) (rooms : List Room) (date : ℕ) (ledger : List LedgerRow)
    → count_where (takes s (r ∷ rooms) date) ledger
      ≤ (if is_room_of s r then rows_at r.id date ledger else 0)
        + count_where (takes s rooms date) ledger
unfolding count_where any_where
takes_more s r rooms date [] = ground arith
takes_more s r rooms date (l ∷ ledger) = ground (arith, takes_more s r rooms date ledger)

taken_le :
    (s : Scope) (rooms : List Room) (date : ℕ) (ledger : List LedgerRow)
    → ((room : ℕ) → rows_at room date ledger ≤ 1)
    → count_where (takes s rooms date) ledger ≤ count_where (is_room_of s) rooms
unfolding count_where
taken_le s [] date ledger h = omega (arith, takes_none s date ledger)
taken_le s (r ∷ rooms) date ledger h =
    ground (arith, takes_more s r rooms date ledger, taken_le s rooms date ledger h, h r.id)

-- Where no room has two ledger rows for the date, the number of free rooms is a natural number: the
-- rooms of the type less those that a row blocks.
pub available_on-natural :
    (db : Db) (s : Scope) (date : ℕ)
    → ((room : ℕ) → rows_at room date db.ledger ≤ 1)
    → available_on db s date
      ≡ pos (count_where (is_room_of s) db.rooms - count_where (takes s db.rooms date) db.ledger)
unfolding available_on minus
available_on-natural db s date h = ground (arith, taken_le s db.rooms date db.ledger h)
