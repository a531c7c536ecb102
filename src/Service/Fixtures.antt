-- ===== src/Service/Fixtures.antt =====
-- A hotel with two rooms of one type, a confirmed reservation of one of them for two nights, and a
-- request just after midnight of the day before the stay. Shared by the examples.
use yop_pms.Prelude.{ℕ, ◌*◌, ◌+◌, false, none, some, [], ◌∷◌}
use yop_pms.Calendar.{day}
use yop_pms.Status.{confirmed, booked}
use yop_pms.Store.{
  Db, Env, Item, Reservation, LedgerRow, internal, sold, maintenance, unexpected, Query,
}
use yop_pms.Booking.Create.{CreateItemInput}

abbrev pub desk : Env
desk = record {
  property = 1;
  user = 7;
  permissions = [];
  if_match = 1;
  now = 9 * day + 5;
  midnight_today = some (9 * day);
  new_id = λ n. 100 + n;
  locked = λ room. false;
  fault = λ q k. none;
}

-- The same request where the commit fails.
abbrev pub unlucky : Env
unlucky = record desk { fault = λ q k. elim q [ Query.commit ↦ some unexpected | _ ↦ none ] }

abbrev pub stay_over : Reservation
stay_over = record {
  id = 5;
  property = 1;
  primary_guest = 6;
  source = internal;
  notes = none;
  status = confirmed;
  envelope = record { lower = 10 * day; upper = 12 * day };
  expires_at = none;
  version = 1;
  created_at = 1;
  updated_at = 1;
  deleted_at = none;
}

abbrev pub double_room : Item
double_room = record {
  id = 8;
  property = 1;
  reservation = 5;
  booked_room_type = 3;
  assigned_room = some 20;
  guest = none;
  rate_plan = some 4;
  stay = record { lower = 10 * day; upper = 12 * day };
  base_rate_pence = 9000;
  adults = 2;
  children = 0;
  status = booked;
  version = 1;
  do_not_move = false;
  created_at = 1;
  updated_at = 1;
  deleted_at = none;
}

abbrev pub night : ℕ → LedgerRow
night date = record {
  property = 1;
  room = 20;
  reservation = some 5;
  item = some 8;
  date = date;
  status = sold;
  deleted_at = none;
}

abbrev pub out_of_order : LedgerRow
out_of_order = record {
  property = 1;
  room = 20;
  reservation = none;
  item = none;
  date = 12;
  status = maintenance;
  deleted_at = none;
}

abbrev pub hotel : Db
hotel = record {
  reservations = stay_over ∷ [];
  items = double_room ∷ [];
  ledger = night 10 ∷ night 11 ∷ out_of_order ∷ [];
  rooms =
      record { id = 20; property = 1; room_type = 3 }
      ∷ record { id = 21; property = 1; room_type = 3 }
      ∷ [];
  room_types =
      record { id = 3; property = 1; min_occupancy = 1; max_occupancy = 4; deleted_at = none } ∷ [];
  base_rates = [];
  guests =
      record { id = 6; property = 1; first_name = "Ada"; last_name = "Byron"; deleted_at = none }
      ∷ [];
  outbox = [];
  notices = [];
  drawn = 0;
  aborted = false;
}

abbrev pub two_more_nights : CreateItemInput
two_more_nights = record {
  room_type = 3;
  assigned_room = none;
  arrival = 10 * day + 3;
  departure = 12 * day;
  rate_plan = none;
  adults = 1;
  children = 1;
}
