-- ===== src/Booking/Outcome/Cancel.antt =====
-- `CancelReservation` of internal/booking/service_lifecycle.go.
use yop_pms.Prelude.{
  ℕ, ◌+◌, ◌≤◌, ◌≡◌, refl, true, false, some, ◌==◌, any_where, count_where, find_where, update_where,
  delete_where, select_where, any-delete, any-update, find_unique, find-update_some, arith,
}
use yop_pms.Status.{
  ReservationStatus, ItemStatus, is_terminal_item_status, validate_reservation_transition,
  same_item_status,
}
use yop_pms.Store.{Db, Env, Item, Reservation, ok}
use yop_pms.Store.Tx.{execute_tx, finish, opening}
use yop_pms.Store.Reservations.{
  is_live_reservation, is_version, with_status, find_reservation, update_reservation_status,
}
use yop_pms.Store.Items.{
  is_cancellable, as_cancelled, is_item_of, cancel_reservation_items, find_items,
}
use yop_pms.Store.Ledger.{is_row_of_reservation, delete_ledger_for_reservation}
use yop_pms.Store.Events.{notify_reservation_change}
use yop_pms.Booking.{request}
use yop_pms.Booking.Lifecycle.{cancel_reservation, cancel_reservation_tx}

-- The tables that a cancellation writes, by the rows that it selects.
record Cancelled (env : Env) (id : ℕ) (db db' : Db) (res : Reservation) : Type 0 where
  ledger : db'.ledger ≡ delete_where (is_row_of_reservation env id) db.ledger
  items : db'.items ≡ update_where (is_cancellable env id) (as_cancelled env) db.items
  reservations :
      db'.reservations
      ≡ update_where
          (is_version env id env.if_match)
          (with_status env ReservationStatus.cancelled)
          db.reservations
  answer : find_where (is_live_reservation env id) db'.reservations ≡ some res
  matched : 1 ≤ count_where (is_version env id env.if_match) db.reservations

cancel_writes :
    (env : Env) (id : ℕ) (db : Db) (res : Reservation)
    → (cancel_reservation env id db).result ≡ ok res
    → Cancelled env id db (cancel_reservation env id db).db res
unfolding cancel_reservation request execute_tx finish opening cancel_reservation_tx
    find_reservation find_items cancel_reservation_items delete_ledger_for_reservation
    update_reservation_status notify_reservation_change
cancel_writes env id db res h = record {
  ledger = ground arith;
  items = ground arith;
  reservations = ground arith;
  answer = ground arith;
  matched = ground arith;
}

cancel_guards :
    (env : Env) (id : ℕ) (db : Db) (res old : Reservation)
    → find_where (is_live_reservation env id) db.reservations ≡ some old
    → (cancel_reservation env id db).result ≡ ok res
    → (validate_reservation_transition old.status ReservationStatus.cancelled ≡ true)
      × (any_where
            (λ i. same_item_status i.status ItemStatus.checked_in)
            (select_where (is_item_of env id) db.items)
          ≡ false)
unfolding cancel_reservation request execute_tx finish opening cancel_reservation_tx
    find_reservation find_items cancel_reservation_items delete_ledger_for_reservation
    update_reservation_status notify_reservation_change
cancel_guards env id db res old f h = ground arith

as_cancelled-not_cancellable :
    (env : Env) (id : ℕ) (i : Item) → is_cancellable env id (as_cancelled env i) ≡ false
unfolding is_terminal_item_status
as_cancelled-not_cancellable env id i = ground arith

-- A cancellation that succeeds leaves no ledger row of the reservation and no item of it in a
-- state that is not terminal, and answers with a row of the tables.
pub cancel_reservation-clears :
    (env : Env) (id : ℕ) (db : Db) (res : Reservation)
    → (cancel_reservation env id db).result ≡ ok res
    → (any_where (is_row_of_reservation env id) (cancel_reservation env id db).db.ledger ≡ false)
      × (any_where (is_cancellable env id) (cancel_reservation env id db).db.items ≡ false)
      × (find_where (is_live_reservation env id) (cancel_reservation env id db).db.reservations
          ≡ some res)
cancel_reservation-clears env id db res h =
    let w = cancel_writes env id db res h in
    (
      rw w.ledger (
          any-delete (is_row_of_reservation env id) (is_row_of_reservation env id) db.ledger
            λ r e. e),
      rw w.items (
          any-update (is_cancellable env id) (is_cancellable env id) (as_cancelled env) db.items
            (λ i e. as_cancelled-not_cancellable env id i) (λ i e. e)),
      w.answer,
    )

-- A cancellation that succeeds found the reservation in a status from which the table allows
-- `cancelled`, at the If-Match version, with no live item checked in; and it answers with the row
-- as cancelled, one version on. The ids of the reservations are unique.
pub cancel_reservation-step :
    (env : Env) (id : ℕ) (db : Db) (old res : Reservation)
    → count_where (λ r. r.id == id) db.reservations ≤ 1
    → find_where (is_live_reservation env id) db.reservations ≡ some old
    → (cancel_reservation env id db).result ≡ ok res
    → (validate_reservation_transition old.status ReservationStatus.cancelled ≡ true)
      × (any_where
            (λ i. same_item_status i.status ItemStatus.checked_in)
            (select_where (is_item_of env id) db.items)
          ≡ false)
      × (old.version ≡ env.if_match)
      × (res.status ≡ ReservationStatus.cancelled)
      × (res.version ≡ env.if_match + 1)
cancel_reservation-step env id db old res u f h =
    let w = cancel_writes env id db res h in
    let g = cancel_guards env id db res old f h in
    let m =
      find_unique (is_live_reservation env id) (is_version env id env.if_match) (λ r. r.id == id)
        db.reservations old u (λ r e. ground arith) (λ r e. ground arith) f w.matched in
    let after =
      find-update_some (is_live_reservation env id) (is_version env id env.if_match)
        (with_status env ReservationStatus.cancelled) db.reservations old (λ r. refl) f in
    ground (arith, g, m, after, w.reservations, w.answer)
