-- ===== src/Booking/Batch.antt =====
-- internal/booking/service_lifecycle.go: check-in and check-out of all the items of a reservation,
-- with a result for each.
use yop_pms.Prelude.{
  ℕ, not, ◌||◌, Option, none, some, List, [], ◌∷◌, is_none, any_where, if◌then◌else◌,
}
use yop_pms.Status.{ItemStatus, booked, same_item_status}
use yop_pms.Store.{Db, Env, Item, Result, ok, err}
use yop_pms.Store.Tx.{Tx, Reply, ◌>>=◌, ◌>>◌, return, attempt}
use yop_pms.Store.Items.{find_items, update_reservation_item}
use yop_pms.Booking.{request, status_params}
use yop_pms.Booking.Lifecycle.{rollup_and_notify}

pub data BatchError : Type 0 where
  invalid_status unassigned_items update_failed : BatchError

-- BatchResultItem: `error` is null exactly where the status is "ok".
pub record BatchItem : Type 0 where
  pub id : ℕ
  pub item : Option Item
  pub error : Option BatchError

abbrev pub failed : ℕ → BatchError → BatchItem
failed id e = record { id = id; item = none; error = some e }

-- The result of an attempted update.
abbrev pub attempted : ℕ → Result Item → BatchItem
attempted id (ok item) = record { id = id; item = some item; error = none }
attempted id (err e) = failed id update_failed

-- The update of one item under its own version.
abbrev pub try_status : Env → Item → ItemStatus → Tx BatchItem
try_status env item status = do
  r ← attempt (update_reservation_item env item.id (status_params item item.version status))
  return (attempted item.id r)

unfoldable pub checkin_one : Env → Item → Tx BatchItem
checkin_one env item =
    if not (same_item_status item.status booked)
    then return (failed item.id invalid_status)
    else if is_none item.assigned_room
    then return (failed item.id unassigned_items)
    else try_status env item ItemStatus.checked_in

unfoldable pub checkout_one : Env → Item → Tx BatchItem
checkout_one env item =
    if same_item_status item.status ItemStatus.checked_out
      || same_item_status item.status ItemStatus.cancelled
      || same_item_status item.status ItemStatus.archived
    then return (record { id = item.id; item = none; error = none })
    else if same_item_status item.status ItemStatus.checked_in
    then try_status env item ItemStatus.checked_out
    else return (failed item.id invalid_status)

-- The loop over the items, and the rollup call after it where there is an item.
unfoldable pub each_item : (Item → Tx BatchItem) → List Item → Tx (List BatchItem)
each_item one [] = return []
each_item one (item ∷ items) = do r ← one item; rest ← each_item one items; return (r ∷ rest)

unfoldable pub batch_tx : Env → (Item → Tx BatchItem) → ℕ → Tx (List BatchItem)
batch_tx env one id = do
  items ← find_items env 0 id
  results ← each_item one items
  rollup_and_notify env id
  return results

unfoldable pub checkin_reservation : Env → ℕ → Db → Reply (List BatchItem)
unfolding batch_tx
checkin_reservation env id = request env (batch_tx env (checkin_one env) id)

unfoldable pub checkout_reservation : Env → ℕ → Db → Reply (List BatchItem)
unfolding batch_tx
checkout_reservation env id = request env (batch_tx env (checkout_one env) id)

-- batchStatus: 207 where an item failed, 200 otherwise.
unfoldable pub batch_status : List BatchItem → ℕ
batch_status results = if any_where (λ r. not (is_none r.error)) results then 207 else 200
