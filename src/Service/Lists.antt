-- ===== src/Service/Lists.antt =====
-- Lists of reservations, on concrete rows.
use yop_pms.Prelude.{◌*◌, ◌≡◌, refl, some, none, List, [], ◌∷◌, select_where}
use yop_pms.Calendar.{day}
use yop_pms.Status.{ReservationStatus}
use yop_pms.Store.{Reservation}
use yop_pms.Booking.Listing.{ListQuery, sort_listed, insert_listed, listed}
use yop_pms.Booking.Listing.Pages.{start, after, listed-pages}
use yop_pms.Service.Fixtures.{stay_over}

abbrev by_two : ListQuery
by_two = record {
  property = 1;
  status = "confirmed";
  cursor_date = none;
  cursor_id = 0;
  start_date = none;
  end_date = some (15 * day);
  limit = 2;
}

-- Two arrivals on one day, a later one, one that is called off, and one of another property.
abbrev twin : Reservation
twin = record stay_over { id = 6 }

abbrev late : Reservation
late = record stay_over { id = 2; envelope = record { lower = 11 * day; upper = 13 * day } }

abbrev called_off : Reservation
called_off = record stay_over { id = 9; status = ReservationStatus.cancelled }

abbrev elsewhere : Reservation
elsewhere = record stay_over { id = 7; property = 2 }

abbrev booked_rows : List Reservation
booked_rows = called_off ∷ stay_over ∷ elsewhere ∷ twin ∷ late ∷ []

listed-pages_example :
    (listed (start by_two) booked_rows ≡ late ∷ twin ∷ [])
    × (listed (after by_two twin) booked_rows ≡ stay_over ∷ [])
unfolding sort_listed insert_listed select_where
listed-pages_example =
    listed-pages by_two booked_rows (late ∷ []) (stay_over ∷ []) twin
      (
        (refl, (refl, (refl, (refl, tt)))),
        ((refl, (refl, (refl, tt))), ((refl, (refl, tt)), ((refl, tt), (tt, tt)))),
      )
      refl
