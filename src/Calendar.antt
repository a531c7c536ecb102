-- ===== src/Calendar.antt =====
-- internal/platform/util/time.go and range.go: instants, calendar nights and stay periods.
-- An instant is the number of nanoseconds since Go's zero time, in UTC, so that `IsZero` is a test
-- for 0 and the calendar date of an instant is its number of whole days.
pub mod Nights
pub mod Changes
mod Examples
use yop_pms.Prelude.{
  ℕ, zero, suc, ◌+◌, ◌-◌, ◌*◌, ◌/◌, ◌%◌, Bool, true, false, not, List, [], ◌∷◌, ltb, ◌==◌,
  if◌then◌else◌, any_where, select_where,
}

-- 24 * time.Hour
abbrev pub day : ℕ
day = 86400000000000

abbrev pub second : ℕ
second = 1000000000

-- t.Truncate(24 * time.Hour)
abbrev pub truncate : ℕ → ℕ
truncate t = t - t % day

-- The calendar date of an instant, as a day number; `Format("2006-01-02")` tells instants apart
-- exactly as this does.
abbrev pub date_of : ℕ → ℕ
date_of t = t / day

-- d.Weekday(): the first day of the calendar is a Monday, and Sunday is 0.
abbrev pub weekday : ℕ → ℕ
weekday t = (date_of t + 1) % 7

-- The loop `for current.Before(end)` with fuel.
unfoldable pub nights_loop : ℕ → ℕ → ℕ → List ℕ
nights_loop zero current end = []
nights_loop (suc fuel) current end =
    let rest = nights_loop fuel (current + day) end in
    if ltb current end then current ∷ rest else []

-- NightsBetween; one round for each day before the end is enough fuel.
unfoldable pub nights_between : ℕ → ℕ → List ℕ
unfolding nights_loop
nights_between arrival departure =
    nights_loop (date_of departure) (truncate arrival) (truncate departure)

-- Whether a date stands in the set that the loops of `RemovedDates` and `AddedDates` fill.
unfoldable pub in_set : ℕ → List ℕ → Bool
unfolding any_where
in_set d dates = any_where (λ e. date_of e == date_of d) dates

unfoldable pub removed_dates : List ℕ → List ℕ → List ℕ
unfolding in_set select_where
removed_dates old new = select_where (λ d. not (in_set d new)) old

unfoldable pub added_dates : List ℕ → List ℕ → List ℕ
unfolding in_set select_where
added_dates old new = select_where (λ d. not (in_set d old)) new

-- A stay period: the range that `ToRange` builds, lower bound included, upper bound excluded.
pub record Stay : Type 0 where
  pub lower : ℕ
  pub upper : ℕ
