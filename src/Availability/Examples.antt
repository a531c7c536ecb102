-- ===== src/Availability/Examples.antt =====
-- Availability (internal/booking/availability.go) for a hotel with two rooms, one of them sold for two nights.
use yop_pms.Prelude.{
  ℕ, ◌*◌, ◌≡◌, refl, true, false, none, some, List, [], ◌∷◌, ◌==◌, ◌&&◌, if◌then◌else◌, arith,
  coalesce, count_where, any_where,
}
use yop_pms.Calendar.{day, date_of, nights_between, in_set}
use yop_pms.Calendar.Nights.{in_set-nights}
use yop_pms.Store.{Db, LedgerRow, sold, ok}
use yop_pms.Redis.{Key}
use yop_pms.Redis.Table.{table, table-IsRedis, get}
use yop_pms.Booking.Create.{CreateItemInput}
use yop_pms.Availability.{
  ℤ, Decimal, Scope, Faults, minus, available_on, cached, check_availability,
  invalidate_availability_cache,
}
use yop_pms.Availability.Coherence.{fresh}
use yop_pms.Availability.Answers.{check_availability-fresh}
use yop_pms.Availability.Shared.{
  AllCoherent, check_availability-AllCoherent, invalidate_availability_cache-AllCoherent,
}
use yop_pms.Availability.Created.{
  invalidate_after_create, invalidate_after_create-first, in_first, first_for,
}

abbrev numbers : Decimal ℤ
numbers = record { parse = some; print = λ n. n }

abbrev sold_night : ℕ → LedgerRow
sold_night date = record {
  property = 1;
  room = 20;
  reservation = some 5;
  item = some 8;
  date = date;
  status = sold;
  deleted_at = none;
}

abbrev inn : Db
inn = record {
  reservations = [];
  items = [];
  ledger = sold_night 10 ∷ sold_night 11 ∷ [];
  rooms =
      record { id = 20; property = 1; room_type = 3 }
      ∷ record { id = 21; property = 1; room_type = 3 }
      ∷ [];
  room_types = [];
  base_rates = [];
  guests = [];
  outbox = [];
  notices = [];
  drawn = 0;
  aborted = false;
}

-- The same hotel with the room sold for the night of day 11 no longer.
abbrev freed : Db
freed = record inn { ledger = sold_night 10 ∷ [] }

abbrev doubles : Scope
doubles = record { property = 1; room_type = 3 }

abbrev nothing_fails : Faults
nothing_fails = record { mget = false; query = false; writes = λ night. true }

empty-AllCoherent : AllCoherent table numbers table-IsRedis inn []
unfolding get
empty-AllCoherent t night = refl

-- The cache after a first request.
abbrev warm : List (Key × ℤ)
warm = (check_availability table numbers nothing_fails inn [] doubles (10 * day) (12 * day)).store

warm-AllCoherent : AllCoherent table numbers table-IsRedis inn warm
warm-AllCoherent =
    check_availability-AllCoherent table numbers table-IsRedis (λ n. refl) nothing_fails inn []
      doubles (10 * day) (12 * day) empty-AllCoherent

check_availability-fresh_example :
    (check_availability table numbers nothing_fails inn warm doubles (9 * day) (13 * day)).result
    ≡ ok (fresh inn doubles (nights_between (9 * day) (13 * day)))
check_availability-fresh_example =
    check_availability-fresh table numbers nothing_fails inn warm doubles (9 * day) (13 * day) refl
      refl refl (warm-AllCoherent doubles)

abbrev first_stay : CreateItemInput
first_stay = record {
  room_type = 3;
  assigned_room = none;
  arrival = 10 * day;
  departure = 11 * day;
  rate_plan = none;
  adults = 1;
  children = 0;
}

abbrev later_stay : CreateItemInput
later_stay = record first_stay { arrival = 11 * day; departure = 12 * day }

invalidate_after_create-first_example :
    cached table numbers
      (invalidate_after_create table numbers (λ night. true) 1 (first_stay ∷ later_stay ∷ []) warm)
      doubles
      (11 * day)
    ≡ (if 1 == 1 && in_first 3 (11 * day) (first_for 3 (first_stay ∷ later_stay ∷ []))
        then none
        else cached table numbers warm doubles (11 * day))
invalidate_after_create-first_example =
    invalidate_after_create-first table numbers table-IsRedis (λ night. true) 1
      (first_stay ∷ later_stay ∷ []) warm (λ night. refl) doubles (11 * day)

freed_elsewhere :
    (t : Scope) (night : ℕ)
    → (1 == t.property && 3 == t.room_type && in_set night (nights_between (11 * day) (12 * day)))
      ≡ false
    → available_on freed t (date_of night) ≡ available_on inn t (date_of night)
unfolding available_on count_where any_where minus
freed_elsewhere t night h = ground (arith, in_set-nights night (11 * day) (12 * day))

invalidate_availability_cache-AllCoherent_example :
    coalesce
      (cached table numbers
        (invalidate_availability_cache table numbers
          (λ night. true)
          doubles
          (11 * day)
          (12 * day)
          warm)
        doubles
        (11 * day))
      (available_on freed doubles 11)
    ≡ available_on freed doubles 11
invalidate_availability_cache-AllCoherent_example =
    invalidate_availability_cache-AllCoherent table numbers table-IsRedis (λ night. true) inn freed
      doubles (11 * day) (12 * day) warm (λ night. refl) freed_elsewhere warm-AllCoherent doubles
      (11 * day)
