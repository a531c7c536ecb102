-- ===== src/Booking/Update/Change.antt =====
-- internal/booking/service_update.go: changes to an item and to the set of items. UpdateItem, which
-- runs other requests inside its own, is in Edit.antt.
use text.Mathlib.Text.{◌==◌ as str_eq}
use yop_pms.Prelude.{
  ℕ, String, Bool, not, ◌&&◌, ◌||◌, none, some, [], ◌∷◌, ltb, ◌==◌, if◌then◌else◌,
}
use yop_pms.Calendar.{date_of, truncate}
use yop_pms.Status.{ItemStatus, booked, same_item_status, is_terminal_reservation_status}
use yop_pms.Store.{Db, Env, Item, not_found, invalid_dates, do_not_move, terminal, has_permission}
use yop_pms.Store.Tx.{Tx, Reply, ◌>>=◌, ◌>>◌, return, throw_if, ◌no_rows_as◌}
use yop_pms.Store.Reservations.{find_reservation}
use yop_pms.Store.Items.{UpdateItemParams, find_item}
use yop_pms.Store.Ledger.{delete_ledger_rows_by_item_from_date, update_ledger_row_room}
use yop_pms.Store.Events.{notify_reservation_change}
use yop_pms.Booking.{request, status_params, update_matched, require_post_checkin_permission}
use yop_pms.Booking.Inventory.{recompute_envelope}
use yop_pms.Booking.Response.{ReservationResponse}
use yop_pms.Booking.Create.{CreateItemInput, insert_single_item}

-- The parameters of an update that keeps the row and its status, under the If-Match version.
abbrev pub kept : Env → Item → UpdateItemParams
kept env item = status_params item env.if_match item.status

-- The guards on the do-not-move flag: the permission to override it, and a reason.
unfoldable pub guard_do_not_move : Env → Item → String → Tx (Unit {0})
guard_do_not_move env item reason =
    throw_if
      (item.do_not_move
        && (not (has_permission env "reservations:override_dnm") || str_eq reason ""))
      do_not_move

-- ShortenStay
unfoldable pub shorten_stay : Env → Item → ℕ → Tx (Unit {0})
shorten_stay env item departure = do
  throw_if (not (ltb item.stay.lower departure)) invalid_dates
  delete_ledger_rows_by_item_from_date env item.id (date_of departure)

-- The part of `UpdateItemStayPeriod` for a checked-in item.
unfoldable pub shorten_checked_in : Env → Item → ℕ → ℕ → Tx (Unit {0})
shorten_checked_in env item arrival departure = do
  require_post_checkin_permission env item
  throw_if (not (truncate arrival == truncate item.stay.lower)) invalid_dates
  shorten_stay env item departure

unfoldable pub update_item_stay_period_tx : Env → ℕ → ℕ → ℕ → Tx Item
update_item_stay_period_tx env id arrival departure = do
  item ← find_item env id no_rows_as not_found
  throw_if (not (ltb arrival departure)) invalid_dates
  if same_item_status item.status ItemStatus.checked_in
      then shorten_checked_in env item arrival departure
      else return tt
  updated ←
      update_matched env
        (record (kept env item) { stay = record { lower = arrival; upper = departure } })
  recompute_envelope env item.reservation
  notify_reservation_change env "item_updated" item.reservation
  return updated

unfoldable pub update_item_stay_period : Env → ℕ → ℕ → ℕ → Db → Reply Item
unfolding update_item_stay_period_tx
update_item_stay_period env id arrival departure =
    request env (update_item_stay_period_tx env id arrival departure)

unfoldable pub assign_room_tx : Env → ℕ → ℕ → String → Tx Item
assign_room_tx env id room reason = do
  item ← find_item env id no_rows_as not_found
  guard_do_not_move env item reason
  require_post_checkin_permission env item
  updated ← update_matched env (record (kept env item) { assigned_room = some room })
  update_ledger_row_room env id room
  notify_reservation_change env "room_assigned" item.reservation
  return updated

unfoldable pub assign_room : Env → ℕ → ℕ → String → Db → Reply Item
unfolding assign_room_tx
assign_room env id room reason = request env (assign_room_tx env id room reason)

unfoldable pub update_item_room_type_tx : Env → ℕ → ℕ → Bool → String → Tx Item
update_item_room_type_tx env id room_type retain_price reason = do
  item ← find_item env id no_rows_as not_found
  guard_do_not_move env item reason
  require_post_checkin_permission env item
  updated ← update_matched env (record (kept env item) {
    booked_room_type = some room_type;
    rate_plan = if not retain_price then none else item.rate_plan;
  })
  notify_reservation_change env "room_type_changed" item.reservation
  return updated

unfoldable pub update_item_room_type : Env → ℕ → ℕ → Bool → String → Db → Reply Item
unfolding update_item_room_type_tx
update_item_room_type env id room_type retain_price reason =
    request env (update_item_room_type_tx env id room_type retain_price reason)

-- The parameter `retainPrice` is not read.
unfoldable pub update_item_rate_plan_tx : Env → ℕ → ℕ → Tx Item
update_item_rate_plan_tx env id plan = do
  item ← find_item env id no_rows_as not_found
  require_post_checkin_permission env item
  updated ← update_matched env (record (kept env item) { rate_plan = some plan })
  notify_reservation_change env "rate_plan_changed" item.reservation
  return updated

unfoldable pub update_item_rate_plan : Env → ℕ → ℕ → Db → Reply Item
unfolding update_item_rate_plan_tx
update_item_rate_plan env id plan = request env (update_item_rate_plan_tx env id plan)

unfoldable pub add_item_tx : Env → ℕ → CreateItemInput → Tx ReservationResponse
add_item_tx env id input = do
  res ← find_reservation env 0 id no_rows_as not_found
  throw_if (is_terminal_reservation_status res.status) terminal
  item ← insert_single_item env input booked id
  recompute_envelope env id
  notify_reservation_change env "item_added" id
  updated ← find_reservation env 1 id
  return (record { row = updated; items = item ∷ []; guest = none })

unfoldable pub add_item : Env → ℕ → CreateItemInput → Db → Reply ReservationResponse
unfolding add_item_tx
add_item env id input = request env (add_item_tx env id input)
