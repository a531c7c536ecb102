-- ===== src/Booking/Outcome/Batch.antt =====
-- `CheckInReservation` and `CheckOutReservation` of internal/booking/service_lifecycle.go.
use yop_pms.Prelude.{
  ℕ, ◌≡◌, refl, Bool, true, false, not, ◌&&◌, ◌||◌, none, some, List, if◌then◌else◌, is_none, map,
  select_where, update_where, arith, inl, inr, Bool-cases,
}
use yop_pms.Status.{ItemStatus, booked, same_item_status}
use yop_pms.Store.{Db, Env, Item, Result, ok, err}
use yop_pms.Store.Tx.{Tx, execute_tx, finish, opening}
use yop_pms.Store.Items.{is_item_of, is_item_version, find_items, update_reservation_item}
use yop_pms.Booking.{request}
use yop_pms.Booking.Lifecycle.{rollup_and_notify}
use yop_pms.Booking.Batch.{
  BatchItem, invalid_status, unassigned_items, failed, try_status, checkin_one, checkout_one,
  each_item, batch_tx, checkin_reservation, checkout_reservation,
}
use yop_pms.Booking.Outcome.Touch.{
  UniqueItems, moved, touch-idle, select-Unique, select-Found, touches-update,
}
use yop_pms.Booking.Outcome.Turns.{ItemTurn, try-ItemTurn, Live, Turns, each_item-Turns}

sees_item :
    (env : Env) (id : ℕ) (i : Item)
    → is_item_of env id i ≡ true
    → is_item_version env i.id i.version i ≡ true
sees_item env id i h = ground (arith, h)

module _ (env : Env) (status : ItemStatus) (acts : Item → Bool) (one : Item → Tx BatchItem)
    (res : Item → BatchItem) (live : (i : Item) → Live env status acts (one i))
    (turn : (i : Item) → ItemTurn env status acts res (one i) i) where
  batch-answers :
      (id : ℕ) (db : Db) (results : List BatchItem)
      → UniqueItems db.items
      → (request env (batch_tx env one id) db).result ≡ ok results
      → (results ≡ map res (select_where (is_item_of env id) db.items))
        × ((request env (batch_tx env one id) db).db.items
            ≡ update_where (λ i. is_item_of env id i && acts i) (moved env status) db.items)
  unfolding batch_tx find_items rollup_and_notify request execute_tx finish opening Turns
  batch-answers id db results u e =
      answered (each_item one (select_where (is_item_of env id) db.items) db) refl
    where
      Goal : Type 0
      Goal =
          (results ≡ map res (select_where (is_item_of env id) db.items))
          × ((request env (batch_tx env one id) db).db.items
              ≡ update_where (λ i. is_item_of env id i && acts i) (moved env status) db.items)

      answered :
          (s : Result (List BatchItem × Db))
          → each_item one (select_where (is_item_of env id) db.items) db ≡ s
          → Goal
      answered (ok (rs, db')) f =
          let o : db'.aborted ≡ false = ground (arith, e, f) in
          let p = is_item_of env id in
          let t =
            each_item-Turns env status acts one res live turn (select_where p db.items) db db' rs f
              o (select-Unique env status acts p (sees_item env id) db.items u)
              (select-Found env status acts p (sees_item env id) db.items u) in
          let w = touches-update env status acts p (sees_item env id) db.items u in
          ground (arith, e, f, t, w)
      answered (err x) f = ground arith

try-Live :
    (env : Env) (status : ItemStatus) (acts : Item → Bool) (i : Item)
    → Live env status acts (try_status env i status)
unfolding Live update_reservation_item
try-Live env status acts i db db1 r h o = ground (arith, h, o)

-- Booked, with a room.
abbrev pub boards : Item → Bool
boards i = same_item_status i.status booked && not (is_none i.assigned_room)

-- What a check-in answers for an item.
unfoldable pub checkin_result : Env → Item → BatchItem
checkin_result env i =
    if not (same_item_status i.status booked)
    then failed i.id invalid_status
    else if is_none i.assigned_room
    then failed i.id unassigned_items
    else record { id = i.id; item = some (moved env ItemStatus.checked_in i); error = none }

checkin_one-Live :
    (env : Env) (i : Item) → Live env ItemStatus.checked_in boards (checkin_one env i)
unfolding checkin_one Live
checkin_one-Live env i db db1 r h o =
    ground (arith, h, o, try-Live env ItemStatus.checked_in boards i db db1 r)

checkin_one-ItemTurn :
    (env : Env) (i : Item)
    → ItemTurn env ItemStatus.checked_in boards (checkin_result env) (checkin_one env i) i
unfolding checkin_one checkin_result
checkin_one-ItemTurn env i db db1 r h o f = elim (Bool-cases (boards i)) [
  | inl b ↦ ground (arith, h, b, try-ItemTurn env ItemStatus.checked_in boards i b db db1 r, o, f)
  | inr b ↦ ground (arith, h, b, touch-idle env ItemStatus.checked_in boards i db.items b)
]

-- A batch check-in that succeeds answers for each live item of the reservation, in their order: an item that is
-- not booked is refused, one without a room is refused, and any other answers with its row, which is now checked
-- in. In the table these rows are so, and every other is as it was. The ids of items are unique.
pub checkin_reservation-answers :
    (env : Env) (id : ℕ) (db : Db) (results : List BatchItem)
    → UniqueItems db.items
    → (checkin_reservation env id db).result ≡ ok results
    → (results ≡ map (checkin_result env) (select_where (is_item_of env id) db.items))
      × ((checkin_reservation env id db).db.items
          ≡ update_where
              (λ i. is_item_of env id i && boards i)
              (moved env ItemStatus.checked_in)
              db.items)
unfolding checkin_reservation
checkin_reservation-answers env id db results u h =
    batch-answers env ItemStatus.checked_in boards (checkin_one env) (checkin_result env)
      (checkin_one-Live env) (checkin_one-ItemTurn env) id db results u h

abbrev pub departs : Item → Bool
departs i = same_item_status i.status ItemStatus.checked_in

-- What a check-out answers for an item.
unfoldable pub checkout_result : Env → Item → BatchItem
checkout_result env i =
    if same_item_status i.status ItemStatus.checked_in
    then record { id = i.id; item = some (moved env ItemStatus.checked_out i); error = none }
    else if same_item_status i.status ItemStatus.checked_out
        || same_item_status i.status ItemStatus.cancelled
        || same_item_status i.status ItemStatus.archived
    then record { id = i.id; item = none; error = none }
    else failed i.id invalid_status

checkout_one-Live :
    (env : Env) (i : Item) → Live env ItemStatus.checked_out departs (checkout_one env i)
unfolding checkout_one Live
checkout_one-Live env i db db1 r h o =
    ground (arith, h, o, try-Live env ItemStatus.checked_out departs i db db1 r)

checkout_one-ItemTurn :
    (env : Env) (i : Item)
    → ItemTurn env ItemStatus.checked_out departs (checkout_result env) (checkout_one env i) i
unfolding checkout_one checkout_result
checkout_one-ItemTurn env i db db1 r h o f = elim (Bool-cases (departs i)) [
  | inl b ↦ ground (arith, h, b, try-ItemTurn env ItemStatus.checked_out departs i b db db1 r, o, f)
  | inr b ↦ ground (arith, h, b, touch-idle env ItemStatus.checked_out departs i db.items b)
]

-- A batch check-out that succeeds answers for each live item of the reservation, in their order: a checked-in
-- item answers with its row, which is now checked out, one that has left already is passed over, and any other is
-- refused. In the table these rows are so, and every other is as it was. The ids of items are unique.
pub checkout_reservation-answers :
    (env : Env) (id : ℕ) (db : Db) (results : List BatchItem)
    → UniqueItems db.items
    → (checkout_reservation env id db).result ≡ ok results
    → (results ≡ map (checkout_result env) (select_where (is_item_of env id) db.items))
      × ((checkout_reservation env id db).db.items
          ≡ update_where
              (λ i. is_item_of env id i && departs i)
              (moved env ItemStatus.checked_out)
              db.items)
unfolding checkout_reservation
checkout_reservation-answers env id db results u h =
    batch-answers env ItemStatus.checked_out departs (checkout_one env) (checkout_result env)
      (checkout_one-Live env) (checkout_one-ItemTurn env) id db results u h
