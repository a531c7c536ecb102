-- ===== src/Service/Examples.antt =====
-- The theorems of the service at concrete requests.
use yop_pms.Prelude.{
  ℕ, ◌-◌, some, ◌*◌, ◌+◌, ◌≤◌, ◌≡◌, refl, true, false, ◌⊎◌, some, ◌==◌, arith, any_where,
  count_where, find_where, select_where, delete_where, update_where,
}
use yop_pms.Calendar.{day}
use yop_pms.Status.{
  ReservationStatus, ItemStatus, confirmed, validate_reservation_transition, same_item_status,
}
use yop_pms.Store.{Reservation, ok}
use yop_pms.Store.Tx.{execute_tx, finish, opening}
use yop_pms.Store.Keeps.Isolation.{Isolated}
use yop_pms.Store.Keeps.NoDouble.{rows_at}
use yop_pms.Store.Reservations.{
  is_live_reservation, is_version, with_status, find_reservation, update_reservation_status,
}
use yop_pms.Store.Items.{
  is_cancellable, as_cancelled, is_item_of, cancel_reservation_items, find_items,
}
use yop_pms.Store.Ledger.{is_row_of_reservation, delete_ledger_for_reservation}
use yop_pms.Store.Events.{notify_reservation_change}
use yop_pms.Booking.{request}
use yop_pms.Booking.Lifecycle.{cancel_reservation, cancel_reservation_tx}
use yop_pms.Booking.Workers.{cancel_hold_tx, as_worker}
use yop_pms.Booking.Outcome.Cancel.{cancel_reservation-clears, cancel_reservation-step}
use yop_pms.Booking.Outcome.Holds.{cancel_hold_tx-atomic}
use yop_pms.Service.{cancel, checkin, serve, Event, after_event, start, next}
use yop_pms.Service.Guarantees.{serve-Isolated, Reaches-Single}
use yop_pms.Service.Vacancies.{Reaches-available_on}
use yop_pms.Availability.{pos, is_room_of, takes, available_on}
use yop_pms.Service.Fixtures.{desk, stay_over, hotel}

serve-Isolated_example : Isolated desk hotel (serve (cancel 5) desk hotel)
serve-Isolated_example = serve-Isolated (cancel 5) desk hotel

Reaches-Single_example :
    rows_at 20 11 (after_event (Event.request (checkin 8) desk) hotel).ledger ≤ 1
unfolding count_where
Reaches-Single_example =
    Reaches-Single 20 11 hotel (after_event (Event.request (checkin 8) desk) hotel)
      (next hotel (Event.request (checkin 8) desk) start) (omega arith)

single_night_11 : (room : ℕ) → rows_at room 11 hotel.ledger ≤ 1
unfolding count_where
single_night_11 room = ground arith

Reaches-available_on_example :
    available_on
      (after_event (Event.request (checkin 8) desk) hotel)
      (record { property = 1; room_type = 3 })
      11
    ≡ pos (
        count_where
          (is_room_of (record { property = 1; room_type = 3 }))
          (after_event (Event.request (checkin 8) desk) hotel).rooms
        - count_where
            (takes
              (record { property = 1; room_type = 3 })
              (after_event (Event.request (checkin 8) desk) hotel).rooms
              11)
            (after_event (Event.request (checkin 8) desk) hotel).ledger)
Reaches-available_on_example =
    Reaches-available_on hotel (after_event (Event.request (checkin 8) desk) hotel)
      (record { property = 1; room_type = 3 }) 11 single_night_11
      (next hotel (Event.request (checkin 8) desk) start)

abbrev called_off : Reservation
called_off = record stay_over {
  status = ReservationStatus.cancelled;
  version = 2;
  updated_at = 9 * day + 5;
}

is_called_off : (cancel_reservation desk 5 hotel).result ≡ ok called_off
unfolding cancel_reservation request execute_tx finish opening cancel_reservation_tx
    find_reservation find_items cancel_reservation_items delete_ledger_for_reservation
    update_reservation_status notify_reservation_change find_where any_where count_where
    select_where update_where delete_where validate_reservation_transition
is_called_off = refl

cancel_reservation-clears_example :
    (any_where (is_row_of_reservation desk 5) (cancel_reservation desk 5 hotel).db.ledger ≡ false)
    × (any_where (is_cancellable desk 5) (cancel_reservation desk 5 hotel).db.items ≡ false)
    × (find_where (is_live_reservation desk 5) (cancel_reservation desk 5 hotel).db.reservations
        ≡ some called_off)
cancel_reservation-clears_example = cancel_reservation-clears desk 5 hotel called_off is_called_off

cancel_reservation-step_example :
    (validate_reservation_transition confirmed ReservationStatus.cancelled ≡ true)
    × (any_where
          (λ i. same_item_status i.status ItemStatus.checked_in)
          (select_where (is_item_of desk 5) hotel.items)
        ≡ false)
    × (stay_over.version ≡ desk.if_match)
    × (called_off.status ≡ ReservationStatus.cancelled)
    × (called_off.version ≡ desk.if_match + 1)
unfolding count_where find_where
cancel_reservation-step_example =
    cancel_reservation-step desk 5 hotel stay_over called_off (omega arith) refl is_called_off

cancel_hold_tx-atomic_example :
    ((cancel_hold_tx desk stay_over hotel).db ≡ hotel)
    ⊎ (((count_where (is_version (as_worker desk 1) 5 1) hotel.reservations == 0) ≡ false)
        × ((cancel_hold_tx desk stay_over hotel).db.ledger
            ≡ delete_where (is_row_of_reservation (as_worker desk 1) 5) hotel.ledger)
        × ((cancel_hold_tx desk stay_over hotel).db.items
            ≡ update_where
                (is_cancellable (as_worker desk 1) 5)
                (as_cancelled (as_worker desk 1))
                hotel.items)
        × ((cancel_hold_tx desk stay_over hotel).db.reservations
            ≡ update_where
                (is_version (as_worker desk 1) 5 1)
                (with_status (as_worker desk 1) ReservationStatus.cancelled)
                hotel.reservations))
cancel_hold_tx-atomic_example = cancel_hold_tx-atomic desk stay_over hotel
