-- ===== src/Service/Vacancies.antt =====
-- The number of free rooms (internal/booking/availability.go) after requests and workers' transactions.
use yop_pms.Prelude.{ℕ, ◌-◌, ◌≤◌, ◌≡◌, count_where}
use yop_pms.Store.{Db}
use yop_pms.Store.Keeps.NoDouble.{rows_at}
use yop_pms.Availability.{pos, Scope, is_room_of, takes, available_on}
use yop_pms.Availability.Count.{available_on-natural}
use yop_pms.Service.{Reaches}
use yop_pms.Service.Guarantees.{Reaches-Single}

-- Whatever requests and workers' transactions have come, the number of free rooms of a type for a
-- night is never negative: it is the number of its rooms less the number of ledger rows that block
-- one of them. At the start no room has two ledger rows for the date.
pub Reaches-available_on :
    (db db' : Db) (s : Scope) (date : ℕ)
    → ((room : ℕ) → rows_at room date db.ledger ≤ 1)
    → Reaches db db'
    → available_on db' s date
      ≡ pos (count_where (is_room_of s) db'.rooms - count_where (takes s db'.rooms date) db'.ledger)
Reaches-available_on db db' s date single reaches =
    available_on-natural db' s date (λ room. Reaches-Single room date db db' reaches (single room))
