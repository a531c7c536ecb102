-- ===== src/Calendar/Nights.antt =====
-- `NightsBetween` against the days that it is to list (internal/platform/util/time.go).
use native.Mathlib.Decide.{dec_le}
use yop_pms.Prelude.{
  ℕ, zero, suc, ◌+◌, ◌-◌, ◌*◌, ◌≤◌, ◌<◌, ◌≡◌, refl, ◌∙◌, List, [], ◌∷◌, ltb, leb, ◌&&◌, arith,
}
use yop_pms.Calendar.{day, truncate, date_of, nights_loop, nights_between, in_set}

-- Midnight of `n` days in a row, from day number `first`.
unfoldable pub days_from : ℕ → ℕ → List ℕ
days_from first zero = []
days_from first (suc n) = (first * day) ∷ days_from (suc first) n

nights_loop-days_from :
    (fuel current end first n : ℕ)
    → current ≡ first * day
    → end ≡ (first + n) * day
    → n ≤ fuel
    → nights_loop fuel current end ≡ days_from first n
unfolding nights_loop days_from
nights_loop-days_from zero current end first zero c e h = refl
nights_loop-days_from zero current end first (suc n) c e h = absurd (omega arith)
nights_loop-days_from (suc fuel) current end first zero c e h = ground arith
nights_loop-days_from (suc fuel) current end first (suc n) c e h = ground (
  arith,
  nights_loop-days_from fuel (current + day) end (suc first) n (omega arith) (omega arith)
      (omega arith),
)

-- The fuel is enough, for an end after the start: the loop has listed every night before it stops.
nights_between-days_from_le :
    (arrival departure : ℕ)
    → date_of arrival ≤ date_of departure
    → nights_between arrival departure
      ≡ days_from (date_of arrival) (date_of departure - date_of arrival)
unfolding nights_between
nights_between-days_from_le arrival departure h =
    nights_loop-days_from (date_of departure) (truncate arrival) (truncate departure)
      (date_of arrival) (date_of departure - date_of arrival) (omega arith) (omega arith)
      (omega arith)

nights_loop_stops : (fuel current end : ℕ) → end ≤ current → nights_loop fuel current end ≡ []
unfolding nights_loop
nights_loop_stops zero current end h = refl
nights_loop_stops (suc fuel) current end h = ground arith

nights_none :
    (arrival departure : ℕ)
    → date_of departure < date_of arrival
    → nights_between arrival departure
      ≡ days_from (date_of arrival) (date_of departure - date_of arrival)
unfolding nights_between days_from
nights_none arrival departure h =
    let e : date_of departure - date_of arrival ≡ 0 = omega arith in
    rw e
      (nights_loop_stops (date_of departure) (truncate arrival) (truncate departure) (omega arith))

-- `NightsBetween` lists the midnights of the days from the day of arrival up to the day of
-- departure, that day excluded, in order, each once; it lists none if that is not later.
pub nights_between-days_from :
    (arrival departure : ℕ)
    → nights_between arrival departure
      ≡ days_from (date_of arrival) (date_of departure - date_of arrival)
nights_between-days_from arrival departure = elim (dec_le (date_of arrival) (date_of departure)) [
  | yes h ↦ nights_between-days_from_le arrival departure h
  | no h ↦ nights_none arrival departure (omega arith)
]

in_set-days_from :
    (x first n : ℕ)
    → in_set x (days_from first n) ≡ (leb first (date_of x) && ltb (date_of x) (first + n))
unfolding in_set days_from
in_set-days_from x first zero = ground arith
in_set-days_from x first (suc n) = ground (arith, in_set-days_from x (suc first) n)

-- A date is in the nights exactly if it is not before the date of arrival, and before the date of
-- departure.
pub in_set-nights :
    (x arrival departure : ℕ)
    → in_set x (nights_between arrival departure)
      ≡ (leb (date_of arrival) (date_of x) && ltb (date_of x) (date_of departure))
in_set-nights x arrival departure =
    rw (nights_between-days_from arrival departure)
      (in_set-days_from x (date_of arrival) (date_of departure - date_of arrival) ∙ ground arith)
