-- ===== src/Service/Runs.antt =====
-- The theorems on items, batches, confirmations and sales at concrete requests.
use yop_pms.Prelude.{
  ◌*◌, ◌+◌, ◌≡◌, refl, true, false, ◌⊎◌, none, some, [], ◌∷◌, ◌==◌, arith, any_where, count_where,
  find_where, select_where, map, ◌&&◌, delete_where, update_where,
}
use yop_pms.Calendar.{day, nights_between}
use yop_pms.Status.{
  ReservationStatus, ItemStatus, confirmed, booked, validate_reservation_transition,
  validate_item_transition, same_reservation_status,
}
use yop_pms.Store.{Db, Item, nil_uuid}
use yop_pms.Store.Tx.{execute_tx, finish, opening}
use yop_pms.Store.Reservations.{
  is_version, with_status, find_reservation, update_reservation_status,
}
use yop_pms.Store.Items.{
  is_item_of, is_live_item, find_items, find_item, update_reservation_item, clashes, insert_item,
}
use yop_pms.Store.Ledger.{
  delete_ledger_rows_by_item, get_room_type_occupancy, select_room_for_auto_pin,
  bulk_insert_ledger_rows, insert_rows,
}
use yop_pms.Store.Events.{notify_reservation_change, enqueue_confirmation}
use yop_pms.Booking.{request}
use yop_pms.Booking.Lifecycle.{cancel_item, cancel_item_tx, rollup_and_notify}
use yop_pms.Booking.Batch.{BatchItem, checkin_one, each_item, batch_tx, checkin_reservation}
use yop_pms.Booking.Response.{IncludeFlags, expand_include, expand_items, expand_guest}
use yop_pms.Booking.Confirm.{confirm_reservation, confirm_reservation_tx, confirm_other}
use yop_pms.Booking.Create.{
  insert_all_items, insert_single_item, choose_room, sell_nights, occupancy_refused,
}
use yop_pms.Booking.Inventory.{rates_of}
use yop_pms.Booking.Outcome.Moves.{cancelling, move_item, goal_of, frees, move_item-step}
use yop_pms.Booking.Outcome.Confirm.{confirm_reservation-inventory}
use yop_pms.Booking.Outcome.Touch.{moved}
use yop_pms.Booking.Outcome.Batch.{boards, checkin_result, checkin_reservation-answers}
use yop_pms.Booking.Outcome.Bulk.{all_sold, insert_all_items-sold}
use yop_pms.Service.Fixtures.{desk, stay_over, double_room, night, hotel, two_more_nights}

abbrev cancelled_room : Item
cancelled_room = record double_room {
  status = ItemStatus.cancelled;
  version = 2;
  updated_at = 9 * day + 5;
}

move_item-step_example :
    (validate_item_transition booked (goal_of cancelling) ≡ true)
    × (double_room.version ≡ desk.if_match)
    × (cancelled_room.status ≡ goal_of cancelling)
    × (cancelled_room.version ≡ desk.if_match + 1)
    × (find_where (is_live_item desk 8) (move_item cancelling desk 8 hotel).db.items
        ≡ some cancelled_room)
    × ((move_item cancelling desk 8 hotel).db.ledger
        ≡ delete_where (frees cancelling desk 8) hotel.ledger)
unfolding move_item cancel_item cancel_item_tx rollup_and_notify request execute_tx finish opening
    find_item update_reservation_item delete_ledger_rows_by_item find_where any_where count_where
    update_where delete_where validate_item_transition clashes
move_item-step_example =
    move_item-step desk 8 hotel double_room cancelled_room cancelling (omega arith) refl refl

abbrev row_only : IncludeFlags
row_only = record { items = false; guest = false; omit = false }

-- The reservation as it is after its cancellation, with no item and no ledger row.
abbrev empty_hotel : Db
empty_hotel = record hotel {
  reservations = record stay_over { status = ReservationStatus.cancelled } ∷ [];
  items = [];
  ledger = [];
}

confirm_reservation-inventory_example :
    ((confirm_reservation desk 5 row_only empty_hotel).db.items ≡ [])
    × ((confirm_reservation desk 5 row_only empty_hotel).db.ledger ≡ [])
    × (((same_reservation_status ReservationStatus.cancelled confirmed ≡ true)
          × ((confirm_reservation desk 5 row_only empty_hotel).db.reservations
              ≡ empty_hotel.reservations))
        ⊎ ((validate_reservation_transition ReservationStatus.cancelled confirmed ≡ true)
            × ((6 == nil_uuid) ≡ false)
            × ((confirm_reservation desk 5 row_only empty_hotel).db.reservations
                ≡ update_where
                    (is_version desk 5 1)
                    (with_status desk confirmed)
                    empty_hotel.reservations)))
unfolding confirm_reservation confirm_reservation_tx confirm_other execute_tx finish opening
    find_reservation update_reservation_status notify_reservation_change enqueue_confirmation
    expand_include expand_items expand_guest validate_reservation_transition find_where count_where
    update_where
confirm_reservation-inventory_example =
    confirm_reservation-inventory desk 5 row_only empty_hotel
      (record stay_over { status = ReservationStatus.cancelled })
      (record {
        row = record stay_over { status = confirmed; version = 2; updated_at = 9 * day + 5 };
        items = [];
        guest = none;
      })
      refl refl

abbrev other_type : Item
other_type = record double_room { booked_room_type = 2; version = 2; updated_at = 9 * day + 5 }

abbrev arrived : BatchItem
arrived = record {
  id = 8;
  item = some (record double_room {
    status = ItemStatus.checked_in;
    version = 2;
    updated_at = 9 * day + 5;
  });
  error = none;
}

checkin_reservation-answers_example :
    (arrived ∷ [] ≡ map (checkin_result desk) (select_where (is_item_of desk 5) hotel.items))
    × ((checkin_reservation desk 5 hotel).db.items
        ≡ update_where
            (λ i. is_item_of desk 5 i && boards i)
            (moved desk ItemStatus.checked_in)
            hotel.items)
unfolding checkin_reservation batch_tx each_item checkin_one rollup_and_notify request execute_tx
    finish opening find_items update_reservation_item find_where any_where select_where update_where
    clashes
checkin_reservation-answers_example =
    checkin_reservation-answers desk 5 hotel (arrived ∷ []) (tt, tt) refl

abbrev sold_room : Item
sold_room = record {
  id = 100;
  property = 1;
  reservation = 5;
  booked_room_type = 3;
  assigned_room = none;
  guest = none;
  rate_plan = none;
  stay = record { lower = 10 * day + 3; upper = 12 * day };
  base_rate_pence = 10000;
  adults = 1;
  children = 1;
  status = booked;
  version = 1;
  do_not_move = false;
  created_at = 9 * day + 5;
  updated_at = 9 * day + 5;
  deleted_at = none;
}

abbrev fuller_hotel : Db
fuller_hotel = record hotel {
  items = double_room ∷ sold_room ∷ [];
  ledger =
      record (night 11) { room = 21; item = some 100 }
      ∷ record (night 10) { room = 21; item = some 100 }
      ∷ hotel.ledger;
  drawn = 1;
}

insert_all_items-sold_example :
    all_sold (two_more_nights ∷ []) (sold_room ∷ []) fuller_hotel.ledger ≡ true
unfolding insert_all_items insert_single_item get_room_type_occupancy occupancy_refused rates_of
    insert_item choose_room select_room_for_auto_pin sell_nights bulk_insert_ledger_rows insert_rows
    nights_between find_where any_where clashes
insert_all_items-sold_example =
    insert_all_items-sold desk (two_more_nights ∷ []) booked 5 hotel fuller_hotel (sold_room ∷ [])
      refl
