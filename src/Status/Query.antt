-- ===== src/Status/Query.antt =====
-- The rollup query `RollupReservationStatus` of internal/store/reservation_items.sql.go beside the
-- Go function of the same name.
use yop_pms.Prelude.{
  ◌≡◌, ◌≢◌, refl, Bool, true, false, ◌&&◌, Option, none, some, List, [], ◌∷◌, length, ltb, ◌==◌,
  if◌then◌else◌, coalesce, count_where, any_where, arith,
}
use yop_pms.Status.{ReservationStatus, ItemStatus, rollup_reservation_status}
use yop_pms.Status.Rollup.{rule, rollup-rule, is, is_settled, all_where, all-count, any-count}

-- status IN ('checked_out', 'no_show', 'cancelled', 'archived')
is_finished : ItemStatus → Bool
is_finished ItemStatus.checked_out = true
is_finished ItemStatus.no_show = true
is_finished ItemStatus.cancelled = true
is_finished ItemStatus.archived = true
is_finished _ = false

-- The CASE over the statuses of the live items; `none` is the empty text, "unchanged".
pub query_rollup : List ItemStatus → Option ReservationStatus
query_rollup items =
    if length items == 0
    then some ReservationStatus.cancelled
    else if (count_where is_finished items == length items)
        && ltb 0 (count_where (is ItemStatus.checked_out) items)
    then some ReservationStatus.checked_out
    else if ltb 0 (count_where (is ItemStatus.checked_in) items)
        && (count_where (is ItemStatus.booked) items == 0)
    then some ReservationStatus.checked_in
    else none

no_overstay :
    (items : List ItemStatus)
    → any_where (is ItemStatus.overstay) items ≡ false
    → count_where is_finished items ≡ count_where is_settled items
unfolding any_where count_where is_finished is_settled
no_overstay [] h = refl
no_overstay (s ∷ items) h = ground (arith, no_overstay items)

agrees :
    (current : ReservationStatus) (items : List ItemStatus)
    → any_where (is ItemStatus.overstay) items ≡ false
    → all_where (is ItemStatus.cancelled) items ≡ false
    → coalesce (query_rollup items) current ≡ rule current items
unfolding query_rollup rule all_where
agrees current [] h k = refl
agrees current (s ∷ items) h k = ground (
  arith,
  all-count (is ItemStatus.cancelled) (s ∷ items),
  all-count is_settled (s ∷ items),
  any-count (is ItemStatus.checked_out) (s ∷ items),
  any-count (is ItemStatus.checked_in) (s ∷ items),
  any-count (is ItemStatus.booked) (s ∷ items),
  no_overstay (s ∷ items) h,
)

-- Where no item is an overstay and the items are not all cancelled, the query, read with its
-- empty answer as the current status, gives the status that the Go function gives.
pub query_rollup-agrees :
    (current : ReservationStatus) (items : List ItemStatus)
    → any_where (is ItemStatus.overstay) items ≡ false
    → all_where (is ItemStatus.cancelled) items ≡ false
    → coalesce (query_rollup items) current ≡ (rollup_reservation_status current items).status
query_rollup-agrees current items h k = rw (rollup-rule current items) (agrees current items h k)

all_cancelled :
    (items : List ItemStatus)
    → all_where (is ItemStatus.cancelled) items ≡ true
    → (count_where (is ItemStatus.checked_out) items ≡ 0)
      × (count_where (is ItemStatus.checked_in) items ≡ 0)
unfolding all_where count_where
all_cancelled [] h = (refl, refl)
all_cancelled (s ∷ items) h = ground (arith, all_cancelled items)

none_left :
    (items : List ItemStatus)
    → all_where (is ItemStatus.cancelled) items ≡ true
    → items ≢ []
    → query_rollup items ≡ none
unfolding query_rollup
none_left items h k = ground (arith, all_cancelled items h)

-- Where the items are all cancelled, and there is one, they part: the query leaves the status as
-- it is, and the Go function answers `cancelled`.
pub query_rollup-all_cancelled :
    (current : ReservationStatus) (s : ItemStatus) (items : List ItemStatus)
    → all_where (is ItemStatus.cancelled) (s ∷ items) ≡ true
    → (query_rollup (s ∷ items) ≡ none)
      × ((rollup_reservation_status current (s ∷ items)).status ≡ ReservationStatus.cancelled)
unfolding rule
query_rollup-all_cancelled current s items h =
    (none_left (s ∷ items) h (λ e. cc), rw (rollup-rule current (s ∷ items)) (rw h))
