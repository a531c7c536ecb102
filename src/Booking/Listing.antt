-- ===== src/Booking/Listing.antt =====
-- The reads of internal/booking/service_read.go, and ListReservations of internal/store/reservation_crud.sql.go.
pub mod Sorting
pub mod Pages
use text.Mathlib.Text.{◌==◌ as str_eq}
use yop_pms.Prelude.{
  ℕ, String, Bool, true, false, not, ◌&&◌, ◌||◌, Option, none, some, List, [], ◌∷◌, ltb, leb, ◌==◌,
  if◌then◌else◌, take, is_none, select_where, map,
}
use yop_pms.Status.{
  ReservationStatus, hold, confirmed, checked_in, checked_out, pending_cancellation, cancelled,
  archived,
}
use yop_pms.Store.{
  Env, Reservation, ok, no_property_context, not_found, select_reservations, nil_uuid,
}
use yop_pms.Store.Tx.{Tx, statement, ◌>>=◌, ◌>>◌, return, throw_if, ◌no_rows_as◌}
use yop_pms.Store.Reservations.{find_reservation}
use yop_pms.Booking.Response.{IncludeFlags, ReservationResponse, expand_include}

abbrev pub status_text : ReservationStatus → String
status_text hold = "hold"
status_text confirmed = "confirmed"
status_text checked_in = "checked_in"
status_text checked_out = "checked_out"
status_text pending_cancellation = "pending_cancellation"
status_text cancelled = "cancelled"
status_text archived = "archived"

-- ListReservationsParams; the dates of the period are instants.
pub record ListQuery : Type 0 where
  pub property : ℕ
  pub status : String
  pub cursor_date : Option ℕ
  pub cursor_id : ℕ
  pub start_date : Option ℕ
  pub end_date : Option ℕ
  pub limit : ℕ

abbrev arrives_from : Option ℕ → ℕ → Bool
arrives_from none t = true
arrives_from (some d) t = leb d t

abbrev leaves_by : Option ℕ → ℕ → Bool
leaves_by none t = true
leaves_by (some d) t = leb t d

-- The conditions but for the cursor.
abbrev pub is_listed : ListQuery → Reservation → Bool
is_listed q r =
    r.property == q.property
    && is_none r.deleted_at
    && (str_eq q.status "" || str_eq (status_text r.status) q.status)
    && arrives_from q.start_date r.envelope.lower
    && leaves_by q.end_date r.envelope.upper

-- What comes after the cursor.
abbrev pub is_behind : Option ℕ → ℕ → Reservation → Bool
is_behind none id r = true
is_behind (some d) id r = ltb r.envelope.lower d || (r.envelope.lower == d && ltb r.id id)

-- ORDER BY lower(r.stay_period_envelope) DESC, r.id DESC
abbrev pub precedes : Reservation → Reservation → Bool
precedes r s =
    ltb s.envelope.lower r.envelope.lower || (s.envelope.lower == r.envelope.lower && leb s.id r.id)

unfoldable pub insert_listed : Reservation → List Reservation → List Reservation
insert_listed r [] = r ∷ []
insert_listed r (s ∷ rows) =
    let rest = insert_listed r rows in if precedes r s then r ∷ s ∷ rows else s ∷ rest

unfoldable pub sort_listed : List Reservation → List Reservation
unfolding insert_listed
sort_listed [] = []
sort_listed (r ∷ rows) = insert_listed r (sort_listed rows)

-- ListReservations of the store
unfoldable pub listed : ListQuery → List Reservation → List Reservation
unfolding sort_listed select_where
listed q rows =
    take q.limit (
      sort_listed (select_where (λ r. is_listed q r && is_behind q.cursor_date q.cursor_id r) rows))

-- ListParams, less the flag for archived reservations, which nothing reads.
pub record ListParams : Type 0 where
  pub status : Option String
  pub cursor_date : Option ℕ
  pub cursor_id : Option ℕ
  pub start_date : Option ℕ
  pub end_date : Option ℕ
  pub limit : ℕ

abbrev text_or_empty : Option String → String
text_or_empty none = ""
text_or_empty (some s) = s

abbrev id_or_nil : Option ℕ → ℕ
id_or_nil none = nil_uuid
id_or_nil (some id) = id

-- A limit of zero or less, or above 200, is replaced by 50; a negative one is given as zero.
abbrev pub page_size : ℕ → ℕ
page_size n = if n == 0 || ltb 200 n then 50 else n

abbrev pub query_of : Env → ListParams → ListQuery
query_of env p = record {
  property = env.property;
  status = text_or_empty p.status;
  cursor_date = p.cursor_date;
  cursor_id = id_or_nil p.cursor_id;
  start_date = p.start_date;
  end_date = p.end_date;
  limit = page_size p.limit;
}

-- ListReservations of the service
unfoldable pub list_reservations : Env → ListParams → Tx (List ReservationResponse)
unfolding listed
list_reservations env p = do
  throw_if (env.property == nil_uuid) no_property_context
  rows ←
      statement env select_reservations 0 (λ db. ok (listed (query_of env p) db.reservations, db))
  return (map (λ r. record { row = r; items = []; guest = none }) rows)

-- GetReservation, as the policies on rows let it see the property's own.
unfoldable pub get_one : Env → ℕ → IncludeFlags → Tx ReservationResponse
unfolding find_reservation expand_include
get_one env id include = do
  throw_if (env.property == nil_uuid) no_property_context
  row ← find_reservation env 0 id no_rows_as not_found
  expand_include env (record { row = row; items = []; guest = none }) include
      (some row.primary_guest)
