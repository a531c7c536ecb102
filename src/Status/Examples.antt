-- ===== src/Status/Examples.antt =====
-- The status machine at concrete inputs.
use yop_pms.Prelude.{◌≡◌, refl, List, [], ◌∷◌, coalesce, any_where}
use yop_pms.Status.{
  ReservationStatus, ItemStatus, confirmed, tally_from, decide_rollup, count_status, rolled,
  rollup_reservation_status,
}
use yop_pms.Status.Rollup.{rollup-rule, rule, all_where}
use yop_pms.Status.Query.{query_rollup, query_rollup-agrees}

abbrev two_rooms : List ItemStatus
two_rooms = ItemStatus.checked_in ∷ ItemStatus.checked_out ∷ []

rolls_up : (rollup_reservation_status confirmed two_rooms).status ≡ ReservationStatus.checked_in
unfolding rollup_reservation_status tally_from decide_rollup count_status
rolls_up = refl

query_rollup-agrees_example :
    coalesce (query_rollup two_rooms) confirmed
    ≡ (rollup_reservation_status confirmed two_rooms).status
unfolding any_where all_where
query_rollup-agrees_example = query_rollup-agrees confirmed two_rooms refl refl

rollup-rule_example :
    rollup_reservation_status confirmed two_rooms ≡ rolled confirmed (rule confirmed two_rooms)
rollup-rule_example = rollup-rule confirmed two_rooms
