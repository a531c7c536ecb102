-- ===== src/Booking/Lifecycle.antt =====
-- internal/booking/service_lifecycle.go: the requests that move a reservation or one of its items
-- through its life. The batch requests are in Booking/Batch.antt.
use yop_pms.Prelude.{ℕ, String, not, ◌&&◌, List, [], ◌∷◌, ltb, ◌==◌, any_where, is_none}
use yop_pms.Calendar.{date_of, truncate}
use yop_pms.Status.{
  ReservationStatus, ItemStatus, confirmed, booked, no_show, same_item_status,
  validate_reservation_transition, validate_item_transition,
}
use yop_pms.Store.{
  Db, Env, Item, Reservation, not_found, version_mismatch, invalid_transition, conflict,
  unassigned_items, invalid_dates, has_permission,
}
use yop_pms.Store.Tx.{Tx, Reply, ◌>>=◌, ◌>>◌, return, throw_if, ◌no_rows_as◌}
use yop_pms.Store.Reservations.{find_reservation, update_reservation_status}
use yop_pms.Store.Items.{
  find_item, find_items, cancel_reservation_items, reactivate_reservation_items,
}
use yop_pms.Store.Ledger.{
  delete_ledger_for_reservation, delete_ledger_rows_by_item, delete_ledger_rows_by_item_from_date,
}
use yop_pms.Store.Events.{notify_reservation_change}
use yop_pms.Booking.Inventory.{reactivate_item_inventory}
use yop_pms.Booking.{request, status_params, update_matched}

-- rollupAndNotify: the function returns at once.
unfoldable pub rollup_and_notify : Env → ℕ → Tx String
rollup_and_notify env id = return ""

unfoldable pub cancel_reservation_tx : Env → ℕ → Tx Reservation
cancel_reservation_tx env id = do
  res ← find_reservation env 0 id no_rows_as not_found
  throw_if (not (validate_reservation_transition res.status ReservationStatus.cancelled))
      invalid_transition
  items ← find_items env 0 id
  throw_if (any_where (λ i. same_item_status i.status ItemStatus.checked_in) items) conflict
  cancel_reservation_items env id
  delete_ledger_for_reservation env id
  rows ← update_reservation_status env id env.if_match ReservationStatus.cancelled
  throw_if (rows == 0) version_mismatch
  updated ← find_reservation env 1 id
  notify_reservation_change env "cancelled" id
  return updated

unfoldable pub cancel_reservation : Env → ℕ → Db → Reply Reservation
cancel_reservation env id = request env (cancel_reservation_tx env id)

unfoldable pub cancel_item_tx : Env → ℕ → Tx Item
cancel_item_tx env id = do
  item ← find_item env id no_rows_as not_found
  throw_if (not (validate_item_transition item.status ItemStatus.cancelled)) invalid_transition
  updated ← update_matched env (status_params item env.if_match ItemStatus.cancelled)
  delete_ledger_rows_by_item env id
  rollup_and_notify env item.reservation
  return updated

unfoldable pub cancel_item : Env → ℕ → Db → Reply Item
cancel_item env id = request env (cancel_item_tx env id)

unfoldable pub checkin_item_tx : Env → ℕ → Tx Item
checkin_item_tx env id = do
  item ← find_item env id no_rows_as not_found
  throw_if (not (same_item_status item.status booked)) invalid_transition
  throw_if (is_none item.assigned_room) unassigned_items
  updated ← update_matched env (status_params item env.if_match ItemStatus.checked_in)
  rollup_and_notify env item.reservation
  return updated

unfoldable pub checkin_item : Env → ℕ → Db → Reply Item
checkin_item env id = request env (checkin_item_tx env id)

unfoldable pub checkout_item_tx : Env → ℕ → Tx Item
checkout_item_tx env id = do
  item ← find_item env id no_rows_as not_found
  throw_if (not (same_item_status item.status ItemStatus.checked_in)) invalid_transition
  updated ← update_matched env (status_params item env.if_match ItemStatus.checked_out)
  rollup_and_notify env item.reservation
  return updated

unfoldable pub checkout_item : Env → ℕ → Db → Reply Item
checkout_item env id = request env (checkout_item_tx env id)

unfoldable pub mark_no_show_tx : Env → ℕ → Tx Item
mark_no_show_tx env id = do
  item ← find_item env id no_rows_as not_found
  throw_if (not (validate_item_transition item.status no_show)) invalid_transition
  throw_if (ltb env.now item.stay.lower) invalid_dates
  updated ← update_matched env (status_params item env.if_match no_show)
  delete_ledger_rows_by_item_from_date env id (date_of (truncate env.now))
  rollup_and_notify env item.reservation
  return updated

unfoldable pub mark_no_show : Env → ℕ → Db → Reply Item
mark_no_show env id = request env (mark_no_show_tx env id)

-- The loop over the items of the reservation, live after `ReactivateReservationItems`.
unfoldable pub reactivate_inventories : Env → List Item → Tx (Unit {0})
reactivate_inventories env [] = return tt
reactivate_inventories env (item ∷ items) = do
  reactivate_item_inventory env item
  reactivate_inventories env items

unfoldable pub reactivate_reservation_tx : Env → ℕ → Tx Reservation
reactivate_reservation_tx env id = do
  res ← find_reservation env 0 id no_rows_as not_found
  throw_if (not (validate_reservation_transition res.status confirmed)) invalid_transition
  throw_if
      (ltb res.envelope.upper env.now && not (has_permission env "reservations:retroactive_create"))
      invalid_transition
  rows ← update_reservation_status env id env.if_match confirmed
  throw_if (rows == 0) version_mismatch
  reactivate_reservation_items env id
  reactivated ← find_items env 0 id
  reactivate_inventories env reactivated
  updated ← find_reservation env 1 id
  notify_reservation_change env "reactivated" id
  return updated

unfoldable pub reactivate_reservation : Env → ℕ → Db → Reply Reservation
reactivate_reservation env id = request env (reactivate_reservation_tx env id)
