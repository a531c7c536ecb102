-- ===== src/Service/Edits.antt =====
-- Changes of a concrete item: of its dates, and of its room type where the read that follows fails.
use yop_pms.Prelude.{
  ◌*◌, ◌+◌, ◌≡◌, refl, false, [], ◌∷◌, arith, any_where, find_where, select_where, update_where,
  delete_where, count_where,
}
use yop_pms.Calendar.{day, nights_between, removed_dates, added_dates}
use yop_pms.Store.{Db}
use yop_pms.Store.Reservations.{find_reservation, update_reservation_metadata}
use yop_pms.Store.Items.{find_items}
use yop_pms.Store.Ledger.{is_row_from, delete_ledger_rows_by_item_from_date}
use yop_pms.Booking.Inventory.{recompute_envelope, envelope_of}
use yop_pms.Booking.Create.{CreateItemInput}
use yop_pms.Booking.Update.Edit.{change_dates, move_ledger}
use yop_pms.Booking.Outcome.Lost.{change_dates-loses}
use yop_pms.Service.Fixtures.{desk, double_room, stay_over, out_of_order, hotel, two_more_nights}

abbrev a_night_later : CreateItemInput
a_night_later = record two_more_nights { arrival = 11 * day; departure = 12 * day }

abbrev after_change : Db
after_change = record hotel {
  reservations = record stay_over { version = 2; updated_at = 9 * day + 5 } ∷ [];
  ledger = out_of_order ∷ [];
}

change_dates-loses_example : any_where (is_row_from desk 8 10) after_change.ledger ≡ false
unfolding change_dates move_ledger recompute_envelope envelope_of
    delete_ledger_rows_by_item_from_date find_items find_reservation update_reservation_metadata
    nights_between removed_dates added_dates find_where any_where select_where update_where
    delete_where count_where
change_dates-loses_example =
    change_dates-loses desk double_room a_night_later hotel after_change tt (omega arith)
      (omega arith) (omega arith) refl
