-- ===== src/Booking/Update/Edit.antt =====
-- `UpdateItem` of internal/booking/service_update.go.
use yop_pms.Prelude.{
  ℕ, Bool, true, false, not, ◌&&◌, ◌||◌, Option, none, some, List, [], ◌∷◌, ltb, ◌==◌,
  if◌then◌else◌, coalesce, or_else,
}
use yop_pms.Calendar.{date_of, nights_between, removed_dates, added_dates}
use yop_pms.Store.{
  Db, Env, Item, Result, ok, err, api, not_found, no_property_context, invalid_dates, nil_uuid,
}
use yop_pms.Store.Tx.{
  Tx, Reply, ◌>>=◌, ◌>>◌, return, throw_if, ◌no_rows_as◌, finish, opening, surface,
}
use yop_pms.Store.Reservations.{find_reservation}
use yop_pms.Store.Items.{find_item}
use yop_pms.Store.Ledger.{
  delete_ledger_rows_by_item, delete_ledger_rows_by_item_from_date, update_ledger_row_room,
  column_is,
}
use yop_pms.Store.Events.{notify_reservation_change}
use yop_pms.Booking.{status_params, update_matched}
use yop_pms.Booking.Inventory.{insert_item_ledger, recompute_envelope}
use yop_pms.Booking.Response.{ReservationResponse, expand_include}
use yop_pms.Booking.Create.{CreateItemInput}
use yop_pms.Booking.Update.Change.{update_item_room_type, update_item_rate_plan}

-- fetchAndExpandReservation
unfoldable pub fetch_and_expand : Env → ℕ → Tx ReservationResponse
fetch_and_expand env id = do
  res ← find_reservation env 0 id
  expand_include env (record { row = res; items = []; guest = none })
      (record { items = true; guest = false; omit = false }) (some res.primary_guest)

-- The ledger after a change of dates, by the nights that fall away and the nights that come in.
unfoldable pub move_ledger : Env → Item → ℕ → Option ℕ → List ℕ → List ℕ → List ℕ → Tx (Unit {0})
move_ledger env item room rate_plan nights (r ∷ removed) (a ∷ added) = do
  delete_ledger_rows_by_item env item.id
  insert_item_ledger env item.id item.reservation nights room rate_plan item.booked_room_type
move_ledger env item room rate_plan nights (r ∷ removed) [] =
    delete_ledger_rows_by_item_from_date env item.id (date_of r)
move_ledger env item room rate_plan nights [] (a ∷ added) =
    insert_item_ledger env item.id item.reservation (a ∷ added) room rate_plan item.booked_room_type
move_ledger env item room rate_plan nights [] [] = return tt

abbrev dates_changed : Item → CreateItemInput → Bool
dates_changed item input =
    not (input.arrival == item.stay.lower) || not (input.departure == item.stay.upper)

abbrev room_changed : Item → Option ℕ → Bool
room_changed item none = false
room_changed item (some room) = not (column_is item.assigned_room room)

-- The room given, or the item's, or uuid.Nil.
abbrev pub effective_room : Item → CreateItemInput → ℕ
effective_room item input = coalesce input.assigned_room (coalesce item.assigned_room nil_uuid)

-- The writes to the ledger and the envelope, before the item is written.
unfoldable pub change_dates : Env → Item → CreateItemInput → Tx (Unit {0})
change_dates env item input =
    let old = nights_between item.stay.lower item.stay.upper in
    let new = nights_between input.arrival input.departure in
    if dates_changed item input
    then (do
      move_ledger env item (effective_room item input) (or_else input.rate_plan item.rate_plan) new
          (removed_dates old new) (added_dates old new)
      recompute_envelope env item.reservation)
    else return tt

unfoldable pub change_room : Env → Item → CreateItemInput → Tx (Unit {0})
change_room env item input =
    if not (dates_changed item input) && room_changed item input.assigned_room
    then update_ledger_row_room env item.id (effective_room item input)
    else return tt

-- The body of `UpdateItem` where neither the room type nor the rate plan changes.
unfoldable pub edit_item_tx : Env → Item → CreateItemInput → Tx ReservationResponse
edit_item_tx env item input = do
  throw_if (not (ltb input.arrival input.departure)) invalid_dates
  change_dates env item input
  change_room env item input
  update_matched env (record (status_params item env.if_match item.status) {
    booked_room_type = some item.booked_room_type;
    stay = record { lower = input.arrival; upper = input.departure };
    rate_plan = or_else input.rate_plan item.rate_plan;
    assigned_room = or_else input.assigned_room item.assigned_room;
    adults = input.adults;
    children = input.children;
  })
  notify_reservation_change env "item_updated" item.reservation
  fetch_and_expand env item.reservation

abbrev pub changes_room_type : Item → CreateItemInput → Bool
changes_room_type item input =
    not (input.room_type == nil_uuid) && not (input.room_type == item.booked_room_type)

abbrev pub changes_rate_plan : Item → Option ℕ → Bool
changes_rate_plan item none = false
changes_rate_plan item (some plan) = not (column_is item.rate_plan plan)

-- A read of the outer transaction, whose snapshot is older than what the inner one has committed.
abbrev pub onto : {A : Type 0} → Db → Result (A × Db) → Result (A × Db)
onto db (ok (a, seen)) = ok (a, record db { aborted = seen.aborted })
onto db (err e) = err e

-- The rest of the outer request after an inner one, which has a transaction of its own: what that
-- one committed stays, whatever becomes of the outer one.
unfoldable pub after_inner : Env → ℕ → Db → Reply Item → Reply ReservationResponse
unfolding finish
after_inner env reservation seen inner = elim inner.result [
  | err e ↦ record { result = err (api (surface e)); db = inner.db }
  | ok item ↦ finish env inner.db (onto inner.db (fetch_and_expand env reservation seen))
]

unfoldable pub update_found :
    Env → ℕ → CreateItemInput → Db → Result (Item × Db) → Reply ReservationResponse
unfolding finish
update_found env id input db (err e) = record { result = err (api (surface e)); db = db }
update_found env id input db (ok (item, seen)) =
    if changes_room_type item input
    then after_inner env item.reservation db
        (update_item_room_type env id input.room_type false "" db)
    else if changes_rate_plan item input.rate_plan
    then after_inner env item.reservation db
        (update_item_rate_plan env id (coalesce input.rate_plan nil_uuid) db)
    else finish env db (edit_item_tx env item input db)

-- UpdateItem
unfoldable pub update_item : Env → ℕ → CreateItemInput → Db → Reply ReservationResponse
unfolding update_found opening
update_item env id input db =
    if env.property == nil_uuid
    then record { result = err (api no_property_context); db = db }
    else elim (opening env) [
      | some e ↦ record { result = err e; db = db }
      | none ↦ update_found env id input db ((find_item env id no_rows_as not_found) db)
    ]
