-- ===== src/Status.antt =====
-- internal/booking/types.go and state_machine.go: the two status enumerations, their direct
-- transitions, the rollup of item statuses and the table of action outcomes.
pub mod Table
pub mod Rollup
pub mod Query
mod Examples
use yop_pms.Prelude.{
  ℕ, suc, String, Bool, true, false, ◌&&◌, ◌||◌, List, [], ◌∷◌, ltb, ◌==◌, if◌then◌else◌, not,
}

pub data ReservationStatus : Type 0 where
  hold confirmed checked_in checked_out pending_cancellation cancelled archived : ReservationStatus

pub data ItemStatus : Type 0 where
  booked checked_in checked_out no_show overstay cancelled archived : ItemStatus

-- The comparison of two status strings.
abbrev reservation_code : ReservationStatus → ℕ
reservation_code hold = 0
reservation_code confirmed = 1
reservation_code ReservationStatus.checked_in = 2
reservation_code ReservationStatus.checked_out = 3
reservation_code pending_cancellation = 4
reservation_code ReservationStatus.cancelled = 5
reservation_code ReservationStatus.archived = 6

abbrev item_code : ItemStatus → ℕ
item_code booked = 0
item_code ItemStatus.checked_in = 1
item_code ItemStatus.checked_out = 2
item_code no_show = 3
item_code overstay = 4
item_code ItemStatus.cancelled = 5
item_code ItemStatus.archived = 6

abbrev pub same_reservation_status : ReservationStatus → ReservationStatus → Bool
same_reservation_status s t = reservation_code s == reservation_code t

abbrev pub same_item_status : ItemStatus → ItemStatus → Bool
same_item_status s t = item_code s == item_code t

-- The map `reservationTransitions`: whether the entry for the pair is present.
reservation_transitions : ReservationStatus → ReservationStatus → Bool
reservation_transitions hold confirmed = true
reservation_transitions hold ReservationStatus.cancelled = true
reservation_transitions confirmed ReservationStatus.cancelled = true
reservation_transitions ReservationStatus.checked_out ReservationStatus.archived = true
reservation_transitions ReservationStatus.cancelled confirmed = true
reservation_transitions _ _ = false

-- The map `itemTransitions`.
item_transitions : ItemStatus → ItemStatus → Bool
item_transitions booked ItemStatus.checked_in = true
item_transitions booked no_show = true
item_transitions booked ItemStatus.cancelled = true
item_transitions ItemStatus.checked_in ItemStatus.checked_out = true
item_transitions ItemStatus.checked_in overstay = true
item_transitions ItemStatus.checked_out ItemStatus.archived = true
item_transitions no_show ItemStatus.cancelled = true
item_transitions overstay ItemStatus.checked_in = true
item_transitions overstay ItemStatus.checked_out = true
item_transitions ItemStatus.cancelled booked = true
item_transitions _ _ = false

-- Every status has an entry in its map, so each validator answers by the inner map alone; `true`
-- is the nil error.
unfoldable pub validate_reservation_transition : ReservationStatus → ReservationStatus → Bool
unfolding reservation_transitions
validate_reservation_transition from to = reservation_transitions from to

unfoldable pub validate_item_transition : ItemStatus → ItemStatus → Bool
unfolding item_transitions
validate_item_transition from to = item_transitions from to

pub record RollupResult : Type 0 where
  pub status : ReservationStatus
  pub changed : Bool

-- The counters of the loop in `RollupReservationStatus`.
pub record Tally : Type 0 where
  pub total : ℕ
  pub terminal : ℕ
  pub checked_out : ℕ
  pub checked_in : ℕ
  pub booked : ℕ
  pub cancelled : ℕ
  pub no_show : ℕ
  pub overstay : ℕ

abbrev no_items : Tally
no_items = record {
  total = 0;
  terminal = 0;
  checked_out = 0;
  checked_in = 0;
  booked = 0;
  cancelled = 0;
  no_show = 0;
  overstay = 0;
}

-- One round of the loop: the `switch` on the status.
count_status : ItemStatus → Tally → Tally
count_status ItemStatus.checked_out t = record t {
  terminal = suc t.terminal;
  checked_out = suc t.checked_out;
}
count_status ItemStatus.no_show t = record t { terminal = suc t.terminal; no_show = suc t.no_show }
count_status ItemStatus.cancelled t = record t {
  terminal = suc t.terminal;
  cancelled = suc t.cancelled;
}
count_status ItemStatus.archived t = record t { terminal = suc t.terminal }
count_status ItemStatus.checked_in t = record t { checked_in = suc t.checked_in }
count_status ItemStatus.overstay t = record t {
  terminal = suc t.terminal;
  overstay = suc t.overstay;
}
count_status ItemStatus.booked t = record t { booked = suc t.booked }

-- The loop, with `total` counted beside it.
tally_from : Tally → List ItemStatus → Tally
tally_from t [] = t
tally_from t (s ∷ items) = tally_from (count_status s (record t { total = suc t.total })) items

-- The result that carries `status` and whether it differs from the current one.
abbrev rolled : ReservationStatus → ReservationStatus → RollupResult
rolled current status = record {
  status = status;
  changed = not (same_reservation_status current status);
}

-- The three rules and the fallback, in their order.
decide_rollup : ReservationStatus → Tally → RollupResult
decide_rollup current t =
    if t.cancelled == t.total
    then rolled current ReservationStatus.cancelled
    else if (t.terminal == t.total) && ltb 0 t.checked_out
    then rolled current ReservationStatus.checked_out
    else if ltb 0 t.checked_in && (t.booked == 0)
    then rolled current ReservationStatus.checked_in
    else record { status = current; changed = false }

pub rollup_reservation_status : ReservationStatus → List ItemStatus → RollupResult
rollup_reservation_status current [] = rolled current ReservationStatus.cancelled
rollup_reservation_status current (s ∷ items) =
    decide_rollup current (tally_from no_items (s ∷ items))

-- The endpoint literals of the table; any other string falls to the default.
pub data Endpoint : Type 0 where
  confirm cancel checkin_item checkout_item cancel_item no_show reactivate : Endpoint
  other : String → Endpoint

-- `any` holds a status of either type.
pub data AnyStatus : Type 0 where
  reservation : ReservationStatus → AnyStatus
  item : ItemStatus → AnyStatus

pub record Outcome : Type 0 where
  pub no_op : Bool
  pub conflict : Bool

abbrev pub applied : Outcome
applied = record { no_op = true; conflict = false }

abbrev pub refused : Outcome
refused = record { no_op = false; conflict = true }

abbrev pub proceed : Outcome
proceed = record { no_op = false; conflict = false }

-- The `switch` over the key, with the desired and the current status.
pub action_idempotency : Endpoint → AnyStatus → AnyStatus → Outcome
action_idempotency confirm (reservation confirmed) (reservation confirmed) = applied
action_idempotency confirm (reservation confirmed) (reservation hold) = proceed
action_idempotency confirm (reservation confirmed) (reservation ReservationStatus.cancelled) =
    refused
action_idempotency cancel (reservation ReservationStatus.cancelled)
      (reservation ReservationStatus.cancelled) =
    refused
action_idempotency cancel (reservation ReservationStatus.cancelled)
      (reservation ReservationStatus.archived) =
    refused
action_idempotency cancel (reservation ReservationStatus.cancelled) (reservation hold) = proceed
action_idempotency cancel (reservation ReservationStatus.cancelled) (reservation confirmed) =
    proceed
action_idempotency cancel (reservation ReservationStatus.cancelled)
      (reservation ReservationStatus.checked_in) =
    proceed
action_idempotency checkin_item (item ItemStatus.checked_in) (item ItemStatus.checked_in) = applied
action_idempotency checkin_item (item ItemStatus.checked_in) (item ItemStatus.checked_out) = refused
action_idempotency checkin_item (item ItemStatus.checked_in) (item ItemStatus.cancelled) = refused
action_idempotency checkin_item (item ItemStatus.checked_in) (item booked) = proceed
action_idempotency checkout_item (item ItemStatus.checked_out) (item ItemStatus.checked_out) =
    applied
action_idempotency checkout_item (item ItemStatus.checked_out) (item ItemStatus.cancelled) = refused
action_idempotency checkout_item (item ItemStatus.checked_out) (item ItemStatus.checked_in) =
    proceed
action_idempotency cancel_item (item ItemStatus.cancelled) (item ItemStatus.cancelled) = applied
action_idempotency cancel_item (item ItemStatus.cancelled) (item ItemStatus.checked_out) = refused
action_idempotency Endpoint.no_show (item ItemStatus.no_show) (item ItemStatus.no_show) = applied
action_idempotency Endpoint.no_show (item ItemStatus.no_show) (item booked) = proceed
action_idempotency Endpoint.no_show (item ItemStatus.no_show) (item ItemStatus.checked_in) = proceed
action_idempotency Endpoint.no_show (item ItemStatus.no_show) (item ItemStatus.cancelled) = refused
action_idempotency reactivate (reservation confirmed) (reservation confirmed) = applied
action_idempotency reactivate (reservation confirmed) (reservation ReservationStatus.cancelled) =
    proceed
action_idempotency _ _ _ = proceed

unfoldable pub is_terminal_item_status : ItemStatus → Bool
is_terminal_item_status ItemStatus.checked_out = true
is_terminal_item_status ItemStatus.cancelled = true
is_terminal_item_status ItemStatus.archived = true
is_terminal_item_status _ = false

unfoldable pub is_terminal_reservation_status : ReservationStatus → Bool
is_terminal_reservation_status ReservationStatus.cancelled = true
is_terminal_reservation_status ReservationStatus.archived = true
is_terminal_reservation_status _ = false
