-- ===== src/Status/Table.antt =====
-- What the transition maps and the outcome table say of one another (state_machine.go).
use yop_pms.Prelude.{◌≡◌, true, false, ◌||◌, arith}
use yop_pms.Status.{
  ItemStatus, AnyStatus, Endpoint, item, validate_item_transition, action_idempotency,
}

-- A no-op is reported only where the current status is already the desired one, and then no
-- conflict is reported with it.
pub action_idempotency-no_op :
    (e : Endpoint) (desired current : AnyStatus)
    → (action_idempotency e desired current).no_op ≡ true
    → (desired ≡ current) × ((action_idempotency e desired current).conflict ≡ false)
unfolding action_idempotency
action_idempotency-no_op e desired current h = ground arith

-- Where the table reports a no-op or a conflict for an item, the item map forbids the transition.
pub action_idempotency-forbidden :
    (e : Endpoint) (s t : ItemStatus)
    → ((action_idempotency e (item t) (item s)).no_op
        || (action_idempotency e (item t) (item s)).conflict)
      ≡ true
    → validate_item_transition s t ≡ false
unfolding action_idempotency validate_item_transition
action_idempotency-forbidden e s t h = ground arith
