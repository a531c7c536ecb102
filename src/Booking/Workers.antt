-- ===== src/Booking/Workers.antt =====
-- internal/booking/workers.go: the sweeps that expire holds, mark overstays and archive. Each row
-- has a transaction of its own, in the row's property and with no user; an error is logged, and the
-- sweep goes on.
use yop_pms.Prelude.{
  ℕ, String, Bool, true, false, not, ◌&&◌, Option, none, some, List, [], ◌∷◌, ltb, ◌==◌,
  if◌then◌else◌, take, find_where, select_where,
}
use yop_pms.Status.{
  ReservationStatus, ItemStatus, hold, overstay, same_reservation_status, same_item_status,
}
use yop_pms.Store.{
  Db, Env, Item, Reservation, Result, ok, err, pg, plain, nil_uuid, begin, commit, set_property,
  get_item,
}
use yop_pms.Store.Tx.{Tx, Reply, ◌>>=◌, ◌>>◌, return, statement, attempt}
use yop_pms.Store.Reservations.{visible, update_reservation_status}
use yop_pms.Store.Items.{
  update_reservation_item, cancel_reservation_items, archive_reservation_items,
}
use yop_pms.Store.Ledger.{delete_ledger_for_reservation}
use yop_pms.Store.Events.{notify_reservation_change}
use yop_pms.Booking.{status_params}

-- The environment of a worker's transaction for a row of `property`.
abbrev pub as_worker : Env → ℕ → Env
as_worker env property = record env { property = property; user = nil_uuid }

-- The outcome of a body that says whether to commit.
unfoldable pub settle : Env → Db → Result (Bool × Db) → Reply (Unit {0})
settle env db (err e) = record { result = err e; db = db }
settle env db (ok (false, db')) = record { result = ok tt; db = db }
settle env db (ok (true, db')) = elim (env.fault commit 0) [
  | some e ↦ record { result = err (pg e); db = db }
  | none ↦
      if db'.aborted
      then record { result = err plain; db = db }
      else record { result = ok tt; db = db' }
]

unfoldable pub worker_tx : Env → Tx Bool → Db → Reply (Unit {0})
unfolding settle
worker_tx env body db = elim (env.fault begin 0) [
  | some e ↦ record { result = err (pg e); db = db }
  | none ↦ elim (env.fault set_property 0) [
    | some e ↦ record { result = err (pg e); db = db }
    | none ↦ settle env db (body db)
  ]
]

-- The end of a body: the status update has changed a row or not, and then the notice.
abbrev pub announce : Env → String → ℕ → ℕ → Tx Bool
announce env action id rows =
    if rows == 0
    then return false
    else (do attempt (notify_reservation_change env action id); return true)

unfoldable pub cancel_hold_body : Env → Reservation → Tx Bool
cancel_hold_body env res = do
  cancel_reservation_items env res.id
  delete_ledger_for_reservation env res.id
  rows ← update_reservation_status env res.id res.version ReservationStatus.cancelled
  announce env "hold_expired" res.id rows

-- cancelHoldTx
unfoldable pub cancel_hold_tx : Env → Reservation → Db → Reply (Unit {0})
unfolding cancel_hold_body
cancel_hold_tx env res =
    let worker = as_worker env res.property in worker_tx worker (cancel_hold_body worker res)

-- FindExpiredHolds; the list is kept in the order of creation.
abbrev pub is_expired : ℕ → Option ℕ → Bool
is_expired now none = false
is_expired now (some t) = ltb t now

abbrev pub is_expired_hold : ℕ → Reservation → Bool
is_expired_hold now r = same_reservation_status r.status hold && is_expired now r.expires_at

unfoldable pub find_expired_holds : ℕ → Db → List Reservation
find_expired_holds now db = take 100 (select_where (is_expired_hold now) db.reservations)

-- The loop of `expireHolds`.
unfoldable pub cancel_holds : Env → List Reservation → Db → Db
cancel_holds env [] db = db
cancel_holds env (res ∷ holds) db = cancel_holds env holds (cancel_hold_tx env res db).db

unfoldable pub expire_holds : Env → Db → Db
unfolding cancel_holds find_expired_holds
expire_holds env db = cancel_holds env (find_expired_holds env.now db) db

abbrev status_of : Option Item → Option ItemStatus
status_of none = none
status_of (some i) = some i.status

-- The re-check of the status inside the transaction, deleted rows included.
unfoldable pub current_status : Env → ℕ → Tx (Option ItemStatus)
current_status env id =
    statement env get_item 0
      λ db. ok (status_of (find_where (λ i. i.id == id && visible env i.property) db.items), db)

abbrev is_checked_in : Option ItemStatus → Bool
is_checked_in none = false
is_checked_in (some s) = same_item_status s ItemStatus.checked_in

unfoldable pub mark_overstay_body : Env → Item → Tx Bool
mark_overstay_body env item = do
  status ← current_status env item.id
  if not (is_checked_in status) then return false else do
    update_reservation_item env 0 (record (status_params item item.version overstay) {
      booked_room_type = some item.booked_room_type;
    })
    attempt (notify_reservation_change env "overstay" item.id)
    return true

-- markOverstayTx
unfoldable pub mark_overstay_tx : Env → Item → Db → Reply (Unit {0})
unfolding mark_overstay_body
mark_overstay_tx env item =
    let worker = as_worker env item.property in worker_tx worker (mark_overstay_body worker item)

unfoldable pub archive_reservation_body : Env → Reservation → Tx Bool
archive_reservation_body env res = do
  archive_reservation_items env res.id
  rows ← update_reservation_status env res.id res.version ReservationStatus.archived
  announce env "archived" res.id rows

-- archiveReservationTx
unfoldable pub archive_reservation_tx : Env → Reservation → Db → Reply (Unit {0})
unfolding archive_reservation_body
archive_reservation_tx env res =
    let worker = as_worker env res.property in
    worker_tx worker (archive_reservation_body worker res)

-- The loops of `processOverstays` and `archiveTerminal` over the rows that their queries found.
unfoldable pub mark_overstays : Env → List Item → Db → Db
mark_overstays env [] db = db
mark_overstays env (item ∷ items) db = mark_overstays env items (mark_overstay_tx env item db).db

unfoldable pub archive_all : Env → List Reservation → Db → Db
archive_all env [] db = db
archive_all env (res ∷ rest) db = archive_all env rest (archive_reservation_tx env res db).db
