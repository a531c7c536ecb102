-- ===== src/Booking.antt =====
-- internal/booking: the reservation service. Every operation is a request: it wants a property in
-- its context, and runs a chain of statements in one transaction. Its answer is the row that the
-- response is built from.
pub mod Listing
pub mod Inventory
pub mod Lifecycle
pub mod Batch
pub mod Response
pub mod Create
pub mod Confirm
pub mod Update
pub mod Workers
pub mod Outcome
pub mod Keeps
use yop_pms.Prelude.{ℕ, Option, none, Bool, true, false, ◌==◌, if◌then◌else◌, ◌&&◌, not}
use yop_pms.Status.{ItemStatus, same_item_status}
use yop_pms.Store.{
  Db, Env, Item, err, api, no_property_context, version_mismatch, missing_permission, nil_uuid,
  has_permission,
}
use yop_pms.Store.Tx.{Tx, Reply, execute_tx, throw_if, ◌no_rows_as◌}
use yop_pms.Store.Items.{UpdateItemParams, update_reservation_item}

-- if propertyID == uuid.Nil { return nil, ErrNoPropertyContext }, before `ExecuteTx`
unfoldable pub request : {A : Type 0} → Env → Tx A → Db → Reply A
request env body db =
    if env.property == nil_uuid
    then record { result = err (api no_property_context); db = db }
    else execute_tx env body db

-- The parameters of an update that sets the status and keeps the rest of the row.
abbrev pub status_params : Item → ℕ → ItemStatus → UpdateItemParams
status_params item version status = record {
  id = item.id;
  version = version;
  booked_room_type = none;
  assigned_room = item.assigned_room;
  stay = item.stay;
  rate_plan = item.rate_plan;
  adults = item.adults;
  children = item.children;
  status = status;
}

-- The update of one item under the If-Match version; no row is ErrVersionMismatch.
abbrev pub update_matched : Env → UpdateItemParams → Tx Item
update_matched env p = update_reservation_item env 0 p no_rows_as version_mismatch

-- requirePostCheckinPermission
unfoldable pub require_post_checkin_permission : Env → Item → Tx (Unit {0})
require_post_checkin_permission env item =
    throw_if
      (same_item_status item.status ItemStatus.checked_in
        && not (has_permission env "reservations:post_checkin_mutate"))
      missing_permission
