-- ===== src/Gateway/Reads.antt =====
-- The handlers that read: Get and List (internal/booking/create.go) and Availability (update.go). They
-- run on the pool, without a transaction, and their errors go to WriteError as they are.
use yop_pms.Prelude.{ℕ, ◌^◌, ◌%◌, String, Option, none, some, List, ltb, if◌then◌else◌}
use yop_pms.Store.{Db, Env, Err, Result, ok, err}
use yop_pms.Store.Tx.{surface}
use yop_pms.Booking.Response.{IncludeFlags, ReservationResponse}
use yop_pms.Booking.Listing.{ListParams, list_reservations, get_one}
use yop_pms.Redis.{Redis}
use yop_pms.Availability.{ℤ, pos, negsuc, Decimal, DateAvailability, Faults, check_availability}
use yop_pms.Gateway.{Formats, status_of, is_empty}
use yop_pms.Gateway.Handlers.{parse_include_flags}

-- A status, with what is written where it is 200.
pub record Fetched (A : Type 0) : Type 0 where
  pub status : ℕ
  pub body : Option A

-- WriteError, after which nothing is written.
abbrev pub failed_with : {A : Type 0} → Err → Fetched A
failed_with e = record { status = status_of (surface e); body = none }

abbrev pub turned_down : {A : Type 0} → ℕ → Fetched A
turned_down status = record { status = status; body = none }

abbrev pub replied : {A : Type 0} → Result A → Fetched A
replied (ok a) = record { status = 200; body = some a }
replied (err e) = failed_with e

abbrev answer_of : {A : Type 0} → Result (A × Db) → Result A
answer_of (ok (a, db)) = ok a
answer_of (err e) = err e

-- int32(n); a negative number stands as zero, as the service takes both for a limit that is missing.
abbrev pub limit_of_int : ℕ → ℕ
limit_of_int n = let m = n % 2 ^ 32 in if ltb m (2 ^ 31) then m else 0

abbrev limit_of : Option ℤ → ℕ
limit_of none = 0
limit_of (some (negsuc n)) = 0
limit_of (some (pos n)) = limit_of_int n

-- A query parameter, which is left out where it is empty or cannot be read.
abbrev read_with : {A : Type 0} → (String → Option A) → String → Option A
read_with parse raw = if is_empty raw then none else parse raw

module _ (f : Formats) (parse_time parse_day : String → Option ℕ) where
  -- The parameters that List takes from the query of the URL.
  unfoldable pub list_params : (String → String) → ListParams
  list_params q = record {
    status = read_with (λ s. some s) (q "status");
    cursor_date = read_with parse_time (q "cursor_date");
    cursor_id = read_with f.parse_uuid (q "cursor_id");
    start_date = none;
    end_date = none;
    limit = limit_of (read_with f.atoi (q "limit"));
  }

  -- List
  unfoldable pub handle_list : (String → String) → Env → Db → Fetched (List ReservationResponse)
  unfolding list_params
  handle_list q env db = replied (answer_of (list_reservations env (list_params q) db))

  abbrev get_by : Option ℕ → IncludeFlags → Env → Db → Fetched ReservationResponse
  get_by none include env db = turned_down 400
  get_by (some id) include env db = replied (answer_of (get_one env id include db))

  -- Get
  unfoldable pub handle_get : String → (String → String) → Env → Db → Fetched ReservationResponse
  unfolding parse_include_flags
  handle_get id q env db = get_by (f.parse_uuid id) (parse_include_flags f (q "include")) env db

  module _ {V R : Type 0} (redis : Redis V R) (decimal : Decimal V) where
    abbrev free_rooms :
        Option ℕ → Option ℕ → Option ℕ → Faults → Env → Db → R → Fetched (List DateAvailability)
    free_rooms (some room_type) (some start) (some end) faults env db r =
        replied
          (check_availability redis decimal faults db r
            (record { property = env.property; room_type = room_type }) start end).result
    free_rooms _ _ _ faults env db r = turned_down 400

    -- Availability
    unfoldable pub handle_availability :
        (String → String) → Faults → Env → Db → R → Fetched (List DateAvailability)
    handle_availability q faults env db r =
        free_rooms (f.parse_uuid (q "room_type_id")) (read_with parse_day (q "start_date"))
          (read_with parse_day (q "end_date")) faults env db r
