-- ===== src/Booking/Outcome/Holds.antt =====
-- The transactions of internal/booking/workers.go.
use yop_pms.Prelude.{
  Bool, true, none, some, Option, ◌&&◌, find_where, ◌≡◌, false, ◌⊎◌, ◌==◌, count_where,
  delete_where, update_where, arith,
}
use yop_pms.Status.{ReservationStatus, ItemStatus, same_item_status}
use yop_pms.Store.{Db, Env, Item, Reservation}
use yop_pms.Store.Reservations.{visible, is_version, with_status, update_reservation_status}
use yop_pms.Store.Items.{
  is_cancellable, as_cancelled, cancel_reservation_items, archive_reservation_items, is_item_of,
  as_deleted, update_reservation_item,
}
use yop_pms.Store.Ledger.{is_row_of_reservation, delete_ledger_for_reservation}
use yop_pms.Store.Events.{notify_reservation_change}
use yop_pms.Booking.Workers.{
  as_worker, settle, worker_tx, cancel_hold_tx, cancel_hold_body, archive_reservation_tx,
  archive_reservation_body, mark_overstay_tx, mark_overstay_body, current_status,
}

-- Whether a row is there, and its status is `checked_in`.
abbrev pub is_still_in : Option Item → Bool
is_still_in none = false
is_still_in (some i) = same_item_status i.status ItemStatus.checked_in

-- The expiry of a hold is all or nothing: either it leaves the tables' rows as they were, or the
-- reservation has no ledger row left, its items are cancelled, and its row at the version that the
-- query saw is cancelled too. Where no row has that version it leaves them as they were.
pub cancel_hold_tx-atomic :
    (env : Env) (res : Reservation) (db : Db)
    → ((cancel_hold_tx env res db).db ≡ db)
      ⊎ (((count_where (is_version (as_worker env res.property) res.id res.version) db.reservations
              == 0)
            ≡ false)
          × ((cancel_hold_tx env res db).db.ledger
              ≡ delete_where (is_row_of_reservation (as_worker env res.property) res.id) db.ledger)
          × ((cancel_hold_tx env res db).db.items
              ≡ update_where
                  (is_cancellable (as_worker env res.property) res.id)
                  (as_cancelled (as_worker env res.property))
                  db.items)
          × ((cancel_hold_tx env res db).db.reservations
              ≡ update_where
                  (is_version (as_worker env res.property) res.id res.version)
                  (with_status (as_worker env res.property) ReservationStatus.cancelled)
                  db.reservations))
unfolding cancel_hold_tx cancel_hold_body worker_tx settle cancel_reservation_items
    delete_ledger_for_reservation update_reservation_status notify_reservation_change
cancel_hold_tx-atomic env res db = ground arith

-- The archiving of a reservation is all or nothing: either it leaves the tables as they were, or the
-- live items are deleted softly, the row at the version that the query saw is archived, and the
-- ledger is as it was.
pub archive_reservation_tx-atomic :
    (env : Env) (res : Reservation) (db : Db)
    → ((archive_reservation_tx env res db).db ≡ db)
      ⊎ (((count_where (is_version (as_worker env res.property) res.id res.version) db.reservations
              == 0)
            ≡ false)
          × ((archive_reservation_tx env res db).db.ledger ≡ db.ledger)
          × ((archive_reservation_tx env res db).db.items
              ≡ update_where
                  (is_item_of (as_worker env res.property) res.id)
                  (as_deleted (as_worker env res.property))
                  db.items)
          × ((archive_reservation_tx env res db).db.reservations
              ≡ update_where
                  (is_version (as_worker env res.property) res.id res.version)
                  (with_status (as_worker env res.property) ReservationStatus.archived)
                  db.reservations))
unfolding archive_reservation_tx archive_reservation_body worker_tx settle archive_reservation_items
    update_reservation_status notify_reservation_change
archive_reservation_tx-atomic env res db = ground arith

-- The sweep of overstays changes the tables only where the item is still checked in, whatever the
-- query saw, and then no reservation and no ledger row with it.
pub mark_overstay_tx-guarded :
    (env : Env) (item : Item) (db : Db)
    → ((mark_overstay_tx env item db).db ≡ db)
      ⊎ (((mark_overstay_tx env item db).db.ledger ≡ db.ledger)
          × ((mark_overstay_tx env item db).db.reservations ≡ db.reservations)
          × (is_still_in (
                find_where
                  (λ i. i.id == item.id && visible (as_worker env item.property) i.property)
                  db.items)
              ≡ true))
unfolding mark_overstay_tx mark_overstay_body worker_tx settle current_status
    update_reservation_item notify_reservation_change
mark_overstay_tx-guarded env item db = ground arith
