-- ===== src/Booking/Outcome/Confirm.antt =====
-- `ConfirmReservation` of internal/booking/service_create.go.
use yop_pms.Prelude.{ℕ, ◌≡◌, true, false, ◌⊎◌, some, ◌==◌, find_where, update_where, arith}
use yop_pms.Status.{confirmed, validate_reservation_transition, same_reservation_status}
use yop_pms.Store.{Db, Env, Reservation, ok, nil_uuid}
use yop_pms.Store.Tx.{execute_tx, finish, opening}
use yop_pms.Store.Reservations.{
  is_live_reservation, is_version, with_status, find_reservation, update_reservation_status,
  find_guest,
}
use yop_pms.Store.Items.{find_items}
use yop_pms.Store.Events.{notify_reservation_change, enqueue_confirmation}
use yop_pms.Booking.Response.{
  IncludeFlags, ReservationResponse, expand_include, expand_items, expand_guest,
}
use yop_pms.Booking.Confirm.{confirm_reservation, confirm_reservation_tx, confirm_other}

-- A confirmation that succeeds, of whatever reservation, changes no item and no ledger row: what a
-- cancellation took away does not come back with it. The reservation was confirmed already, and
-- then its row is as it was, or the table allows the step and a guest is attached.
pub confirm_reservation-inventory :
    (env : Env) (id : ℕ) (include : IncludeFlags) (db : Db) (old : Reservation)
    (res : ReservationResponse)
    → find_where (is_live_reservation env id) db.reservations ≡ some old
    → (confirm_reservation env id include db).result ≡ ok res
    → ((confirm_reservation env id include db).db.items ≡ db.items)
      × ((confirm_reservation env id include db).db.ledger ≡ db.ledger)
      × (((same_reservation_status old.status confirmed ≡ true)
            × ((confirm_reservation env id include db).db.reservations ≡ db.reservations))
          ⊎ ((validate_reservation_transition old.status confirmed ≡ true)
              × ((old.primary_guest == nil_uuid) ≡ false)
              × ((confirm_reservation env id include db).db.reservations
                  ≡ update_where
                      (is_version env id env.if_match)
                      (with_status env confirmed)
                      db.reservations)))
unfolding confirm_reservation confirm_reservation_tx confirm_other execute_tx finish opening
    find_reservation update_reservation_status find_guest find_items notify_reservation_change
    enqueue_confirmation expand_include expand_items expand_guest
confirm_reservation-inventory env id include db old res f h = ground arith
