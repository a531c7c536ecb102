-- ===== src/Booking/Create.antt =====
-- internal/booking/service_create.go, with the types of types.go: creation and confirmation of a
-- reservation.
use text.Mathlib.Text.{◌==◌ as str_eq}
use yop_pms.Prelude.{
  ℕ, ◌+◌, ◌*◌, String, Bool, true, false, not, ◌&&◌, ◌||◌, Option, none, some, List, [], ◌∷◌, map,
  ltb, if◌then◌else◌, is_none, coalesce, any_where,
}
use yop_pms.Calendar.{second, date_of, nights_between}
use yop_pms.Status.{ReservationStatus, ItemStatus, hold, confirmed, booked, same_reservation_status}
use yop_pms.Store.{
  Db, Env, Item, Source, website, internal, ota, other, Result, ok, err, api, pg, plain, unexpected,
  source_deferred, unassigned_items, invalid_dates, nil_uuid, insert_ledger, get_timezone,
}
use yop_pms.Store.Tx.{
  Tx, Reply, ◌>>=◌, ◌>>◌, return, throw_if, fail_if, statement, attempt, execute_tx,
}
use yop_pms.Store.Reservations.{insert_reservation, insert_guest}
use yop_pms.Store.Items.{insert_item}
use yop_pms.Store.Ledger.{
  select_room_for_auto_pin, bulk_insert_ledger_rows, get_room_type_occupancy, sold_row,
}
use yop_pms.Store.Events.{notify_reservation_change, enqueue_confirmation}
use yop_pms.Booking.Response.{IncludeFlags, ReservationResponse, expand_include}
use yop_pms.Booking.Inventory.{rates_of, envelope_of}

pub record GuestInline : Type 0 where
  pub first_name : String
  pub last_name : String

pub record CreateItemInput : Type 0 where
  pub room_type : ℕ
  pub assigned_room : Option ℕ
  pub arrival : ℕ
  pub departure : ℕ
  pub rate_plan : Option ℕ
  pub adults : ℕ
  pub children : ℕ

pub record CreateInput : Type 0 where
  pub source : Source
  pub is_walkin : Bool
  pub primary_guest : Option ℕ
  pub guest : Option GuestInline
  pub notes : String
  pub items : List CreateItemInput

-- The statuses that a new reservation and its items start in.
pub record Initial : Type 0 where
  pub reservation : ReservationStatus
  pub item : ItemStatus

-- SourceToInitialStatus
unfoldable pub source_to_initial_status : Source → Option Initial
source_to_initial_status website = some (record { reservation = hold; item = booked })
source_to_initial_status internal = some (record { reservation = hold; item = booked })
source_to_initial_status ota = some (record { reservation = confirmed; item = booked })
source_to_initial_status (other s) = none

abbrev is_internal : Source → Bool
is_internal internal = true
is_internal _ = false

-- SourceIsWalkin
unfoldable pub source_is_walkin : Source → Bool → Bool
source_is_walkin source walkin = is_internal source && walkin

abbrev is_website : Source → Bool
is_website website = true
is_website _ = false

-- computeExpiresAt
unfoldable pub compute_expires_at : Source → ReservationStatus → ℕ → Option ℕ
compute_expires_at source status now =
    if not (same_reservation_status status hold)
    then none
    else some (now + (if is_website source then 900 else 1800) * second)

-- resolvePrimaryGuest: the guest given, or one that is created from the payload, or none.
unfoldable pub resolve_guest : Env → Option ℕ → Option GuestInline → Tx (Option ℕ)
resolve_guest env (some g) inline = return (some g)
resolve_guest env none (some g) = do
  created ← insert_guest env g.first_name g.last_name
  return (some created.id)
resolve_guest env none none = return none

abbrev pub resolve_primary_guest : Env → CreateInput → Tx (Option ℕ)
resolve_primary_guest env input = resolve_guest env input.primary_guest input.guest

abbrev pub new_item : Env → CreateItemInput → ItemStatus → ℕ → ℕ → ℕ → Item
new_item env input status reservation rate id = record {
  id = id;
  property = env.property;
  reservation = reservation;
  booked_room_type = input.room_type;
  assigned_room = input.assigned_room;
  guest = none;
  rate_plan = input.rate_plan;
  stay = record { lower = input.arrival; upper = input.departure };
  base_rate_pence = rate;
  adults = input.adults;
  children = input.children;
  status = status;
  version = 1;
  do_not_move = false;
  created_at = env.now;
  updated_at = env.now;
  deleted_at = none;
}

abbrev first_rate : List ℕ → ℕ
first_rate [] = 10000
first_rate (r ∷ rates) = r

-- The room of a new item: the one asked for, or a free one of the type.
unfoldable pub choose_room : Env → ℕ → Option ℕ → List ℕ → Tx ℕ
choose_room env room_type (some room) dates = return room
choose_room env room_type none dates = select_room_for_auto_pin env room_type dates

-- The `sold` rows of a new item. For a stay of no nights the code inserts one row whose status is
-- the empty text, which the database refuses.
unfoldable pub sell_nights : Env → ℕ → ℕ → ℕ → List ℕ → Tx (Unit {0})
sell_nights env room reservation item [] = statement env insert_ledger 0 λ db. err (pg unexpected)
sell_nights env room reservation item (d ∷ dates) =
    bulk_insert_ledger_rows env (sold_row env room reservation item) (map date_of (d ∷ dates))

unfoldable pub occupancy_refused : ℕ → ℕ → ℕ → Bool
occupancy_refused guests min max = ltb guests min || (ltb 0 max && ltb max guests)

-- insertSingleItem
unfoldable pub insert_single_item : Env → CreateItemInput → ItemStatus → ℕ → Tx Item
insert_single_item env input status reservation = do
  limits ← get_room_type_occupancy env input.room_type
  let guests = input.adults + input.children
  fail_if (occupancy_refused guests limits.min_occupancy limits.max_occupancy) plain
  let dates = nights_between input.arrival input.departure
  rates ← rates_of env input.room_type input.rate_plan dates
  item ← insert_item env (new_item env input status reservation (first_rate rates))
  room ← choose_room env input.room_type input.assigned_room (map date_of dates)
  sell_nights env room reservation item.id dates
  return item

-- insertAllItems
unfoldable pub insert_all_items : Env → List CreateItemInput → ItemStatus → ℕ → Tx (List Item)
insert_all_items env [] status reservation = return []
insert_all_items env (input ∷ inputs) status reservation = do
  item ← insert_single_item env input status reservation
  items ← insert_all_items env inputs status reservation
  return (item ∷ items)

abbrev notes_of : String → Option String
notes_of notes = if str_eq notes "" then none else some notes

unfoldable pub enqueue_unless_hold : Env → ReservationStatus → ℕ → Tx (Unit {0})
enqueue_unless_hold env status id =
    if same_reservation_status status hold
    then return tt
    else (do attempt (enqueue_confirmation env id); return tt)

-- createReservationInTx. A failure to enqueue the mail is logged and passed over.
unfoldable pub create_reservation_in_tx :
    Env → CreateInput → Initial → IncludeFlags → Tx ReservationResponse
create_reservation_in_tx env input initial include = do
  guest ← resolve_primary_guest env input
  res ← insert_reservation env (record {
    primary_guest = coalesce guest nil_uuid;
    source = input.source;
    notes = notes_of input.notes;
    status = initial.reservation;
    envelope =
        envelope_of (map (λ i. record { lower = i.arrival; upper = i.departure }) input.items);
    expires_at = compute_expires_at input.source initial.reservation env.now;
  })
  items ← insert_all_items env input.items initial.item res.id
  notify_reservation_change env "created" res.id
  enqueue_unless_hold env initial.reservation res.id
  expand_include env
      (record {
        row = res;
        items = if include.items && not include.omit then items else [];
        guest = none;
      })
      include guest

-- The check of the arrival dates against midnight in the property's time zone, which walk-ins skip.
unfoldable pub not_before : Option ℕ → List CreateItemInput → Tx (Unit {0})
not_before none items = fail_if true plain
not_before (some midnight) items =
    throw_if (any_where (λ i. ltb i.arrival midnight) items) invalid_dates

unfoldable pub check_arrivals : Env → CreateInput → Tx (Unit {0})
check_arrivals env input =
    if source_is_walkin input.source input.is_walkin
    then return tt
    else statement env get_timezone 0 (not_before env.midnight_today input.items)

unfoldable pub create_reservation_tx :
    Env → CreateInput → Initial → IncludeFlags → Tx ReservationResponse
create_reservation_tx env input initial include = do
  check_arrivals env input
  create_reservation_in_tx env input initial include

-- The statuses to start in, or the refusal: an unknown source, or a walk-in without a room.
unfoldable pub initial_of : CreateInput → Result Initial
initial_of input = elim (source_to_initial_status input.source) [
  | none ↦ err (api source_deferred)
  | some initial ↦
      if not (source_is_walkin input.source input.is_walkin)
      then ok initial
      else if any_where (λ i. is_none i.assigned_room) input.items
      then err (api unassigned_items)
      else ok (record { reservation = ReservationStatus.checked_in; item = ItemStatus.checked_in })
]

-- CreateReservation, less the eviction of cached availability that follows it.
unfoldable pub create_reservation :
    Env → CreateInput → IncludeFlags → Db → Reply ReservationResponse
unfolding create_reservation_tx
create_reservation env input include db = elim (initial_of input) [
  | err e ↦ record { result = err e; db = db }
  | ok initial ↦ execute_tx env (create_reservation_tx env input initial include) db
]
