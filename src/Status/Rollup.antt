-- ===== src/Status/Rollup.antt =====
-- `RollupReservationStatus` of internal/booking/state_machine.go against its rules, those of
-- ADR-009 but for one: an overstay counts as terminal, which ADR-009 does not list.
use mathlib.Core.List.{Permᴰ}
use yop_pms.Prelude.{
  suc, ◌+◌, ◌≤◌, ◌≡◌, refl, sym, ap, ◌∙◌, Bool, true, false, ◌&&◌, not, List, [], ◌∷◌, length, ltb,
  ◌==◌, if◌then◌else◌, count_where, any_where, arith,
}
use yop_pms.Status.{
  ReservationStatus, ItemStatus, Tally, same_item_status, count_status, tally_from, decide_rollup,
  rollup_reservation_status, no_items, rolled,
}

-- Membership of the status sets that the rules name.
abbrev pub is : ItemStatus → ItemStatus → Bool
is s t = same_item_status t s

-- What the code counts as terminal: ADR-009's checked_out, no_show, cancelled and archived, and overstay.
unfoldable pub is_settled : ItemStatus → Bool
is_settled ItemStatus.checked_in = false
is_settled ItemStatus.booked = false
is_settled _ = true

unfoldable pub all_where : (ItemStatus → Bool) → List ItemStatus → Bool
all_where p [] = true
all_where p (s ∷ items) = p s && all_where p items

-- The rules: the first that applies decides.
unfoldable pub rule : ReservationStatus → List ItemStatus → ReservationStatus
rule current items =
    if all_where (is ItemStatus.cancelled) items
    then ReservationStatus.cancelled
    else if all_where is_settled items && any_where (is ItemStatus.checked_out) items
    then ReservationStatus.checked_out
    else if any_where (is ItemStatus.checked_in) items
        && not (any_where (is ItemStatus.booked) items)
    then ReservationStatus.checked_in
    else current

count-le-length :
    (p : ItemStatus → Bool) (items : List ItemStatus) → count_where p items ≤ length items
unfolding count_where
count-le-length p [] = omega arith
count-le-length p (s ∷ items) = ground (arith, count-le-length p items)

pub all-count :
    (p : ItemStatus → Bool) (items : List ItemStatus)
    → all_where p items ≡ (count_where p items == length items)
unfolding all_where count_where
all-count p [] = refl
all-count p (s ∷ items) = ground (arith, all-count p items, count-le-length p items)

pub any-count :
    (p : ItemStatus → Bool) (items : List ItemStatus)
    → any_where p items ≡ ltb 0 (count_where p items)
unfolding any_where count_where
any-count p [] = refl
any-count p (s ∷ items) = ground (arith, any-count p items)

-- What the loop has counted, from `t` to `u`.
record Counts (t u : Tally) (items : List ItemStatus) : Type 0 where
  total : u.total ≡ t.total + length items
  terminal : u.terminal ≡ t.terminal + count_where is_settled items
  checked_out : u.checked_out ≡ t.checked_out + count_where (is ItemStatus.checked_out) items
  checked_in : u.checked_in ≡ t.checked_in + count_where (is ItemStatus.checked_in) items
  booked : u.booked ≡ t.booked + count_where (is ItemStatus.booked) items
  cancelled : u.cancelled ≡ t.cancelled + count_where (is ItemStatus.cancelled) items

tally-Counts : (t : Tally) (items : List ItemStatus) → Counts t (tally_from t items) items
unfolding tally_from count_where count_status is_settled
tally-Counts t [] = omega arith
tally-Counts t (ItemStatus.booked ∷ items) =
    omega (
      arith,
      tally-Counts (count_status ItemStatus.booked (record t { total = suc t.total })) items,
    )
tally-Counts t (s ∷ items) =
    omega (arith, tally-Counts (count_status s (record t { total = suc t.total })) items)

decide-rule :
    (current : ReservationStatus) (items : List ItemStatus) {t : Tally}
    → Counts no_items t items
    → decide_rollup current t ≡ rolled current (rule current items)
unfolding decide_rollup rule
decide-rule current items c = ground (
  arith,
  all-count (is ItemStatus.cancelled) items,
  all-count is_settled items,
  any-count (is ItemStatus.checked_out) items,
  any-count (is ItemStatus.checked_in) items,
  any-count (is ItemStatus.booked) items,
)

-- The code's answer is the first rule that applies: cancelled if all items are; checked_out if all are terminal
-- and one has checked out; checked_in if an item is and none is booked; otherwise the current status. It tells
-- whether the status has changed. Here an overstay is terminal, unlike in ADR-009.
pub rollup-rule :
    (current : ReservationStatus) (items : List ItemStatus)
    → rollup_reservation_status current items ≡ rolled current (rule current items)
unfolding rollup_reservation_status rule all_where
rollup-rule current [] = refl
rollup-rule current (s ∷ items) =
    decide-rule current (s ∷ items) (tally-Counts no_items (s ∷ items))

count-perm :
    (p : ItemStatus → Bool) {xs ys : List ItemStatus}
    → Permᴰ xs ys
    → count_where p xs ≡ count_where p ys
unfolding count_where
count-perm p Permᴰ.nil = refl
count-perm p (Permᴰ.cons {a = a} {b = b} e d) = rw e (ground (arith, count-perm p d))
count-perm p (Permᴰ.swap {l = l} e f) = rw (e, f) (ground arith)
count-perm p (Permᴰ.trans d f) = count-perm p d ∙ count-perm p f

length-perm : {xs ys : List ItemStatus} → Permᴰ xs ys → length xs ≡ length ys
length-perm Permᴰ.nil = refl
length-perm (Permᴰ.cons e d) = ap suc (length-perm d)
length-perm (Permᴰ.swap e f) = refl
length-perm (Permᴰ.trans d f) = length-perm d ∙ length-perm f

rule-perm :
    (current : ReservationStatus) {xs ys : List ItemStatus}
    → Permᴰ xs ys
    → rule current xs ≡ rule current ys
unfolding rule
rule-perm current {xs} {ys} d = simp (all-count, any-count, length-perm d, count-perm _ d)

-- The rollup does not depend on the order in which the items are read.
pub rollup-perm :
    (current : ReservationStatus) {xs ys : List ItemStatus}
    → Permᴰ xs ys
    → rollup_reservation_status current xs ≡ rollup_reservation_status current ys
rollup-perm current {xs} {ys} d =
    rollup-rule current xs
    ∙ ap (rolled current) (rule-perm current d)
    ∙ sym (rollup-rule current ys)
