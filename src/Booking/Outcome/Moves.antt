-- ===== src/Booking/Outcome/Moves.antt =====
-- `CancelItem`, `CheckInItem`, `CheckOutItem` and `MarkNoShow` of
-- internal/booking/service_lifecycle.go, as the four moves of an item.
use yop_pms.Prelude.{
  ℕ, ◌+◌, ◌≤◌, ◌≡◌, refl, Bool, true, false, none, some, List, [], ◌∷◌, ◌==◌, count_where,
  find_where, update_where, delete_where, find-same, find_holds, find-update_some, Option-cases,
  inl, inr, find-update_some, arith,
}
use yop_pms.Calendar.{date_of, truncate}
use yop_pms.Status.{ItemStatus, no_show, validate_item_transition}
use yop_pms.Store.{Db, Env, Item, LedgerRow, ok}
use yop_pms.Store.Tx.{Reply, execute_tx, finish, opening}
use yop_pms.Store.Items.{
  is_live_item, is_item_version, with_params, find_item, update_reservation_item,
}
use yop_pms.Store.Ledger.{
  is_row_of_item, is_row_from, delete_ledger_rows_by_item, delete_ledger_rows_by_item_from_date,
}
use yop_pms.Booking.{request, status_params}
use yop_pms.Booking.Lifecycle.{
  cancel_item, cancel_item_tx, checkin_item, checkin_item_tx, checkout_item, checkout_item_tx,
  mark_no_show, mark_no_show_tx, rollup_and_notify,
}

pub data Move : Type 0 where
  cancelling arriving departing missing : Move

unfoldable pub move_item : Move → Env → ℕ → Db → Reply Item
move_item cancelling = cancel_item
move_item arriving = checkin_item
move_item departing = checkout_item
move_item missing = mark_no_show

-- The status that a move leads to.
unfoldable pub goal_of : Move → ItemStatus
goal_of cancelling = ItemStatus.cancelled
goal_of arriving = ItemStatus.checked_in
goal_of departing = ItemStatus.checked_out
goal_of missing = no_show

-- The rows that a move takes off the ledger.
unfoldable pub frees : Move → Env → ℕ → LedgerRow → Bool
frees cancelling env id r = is_row_of_item env id r
frees arriving env id r = false
frees departing env id r = false
frees missing env id r = is_row_from env id (date_of (truncate env.now)) r

delete-none : {A : Type 0} (xs : List A) → delete_where (λ x. false) xs ≡ xs
unfolding delete_where
delete-none [] = refl
delete-none (x ∷ xs) = ground (arith, delete-none xs)

record Moved (m : Move) (env : Env) (id : ℕ) (db db' : Db) (old seen new : Item) : Type 0 where
  allowed : validate_item_transition old.status (goal_of m) ≡ true
  ledger : db'.ledger ≡ delete_where (frees m env id) db.ledger
  items :
      db'.items
      ≡ update_where
          (is_item_version env old.id env.if_match)
          (with_params env (status_params old env.if_match (goal_of m)))
          db.items
  answer : new ≡ with_params env (status_params old env.if_match (goal_of m)) seen

module _ (env : Env) (id : ℕ) (db : Db) (old new : Item) where
  move_item-unmatched :
      (m : Move)
      → find_where (is_live_item env id) db.items ≡ some old
      → find_where (is_item_version env old.id env.if_match) db.items ≡ none
      → (move_item m env id db).result ≡ ok new
      → ⊥
  unfolding move_item cancel_item cancel_item_tx checkin_item checkin_item_tx checkout_item
      checkout_item_tx mark_no_show mark_no_show_tx rollup_and_notify request execute_tx finish
      opening find_item update_reservation_item delete_ledger_rows_by_item
      delete_ledger_rows_by_item_from_date
  move_item-unmatched cancelling f e h = ground arith
  move_item-unmatched arriving f e h = ground arith
  move_item-unmatched departing f e h = ground arith
  move_item-unmatched missing f e h = ground arith

  move_item-writes :
      (m : Move) (seen : Item)
      → find_where (is_live_item env id) db.items ≡ some old
      → find_where (is_item_version env old.id env.if_match) db.items ≡ some seen
      → (move_item m env id db).result ≡ ok new
      → Moved m env id db (move_item m env id db).db old seen new
  unfolding move_item goal_of frees validate_item_transition cancel_item cancel_item_tx checkin_item
      checkin_item_tx checkout_item checkout_item_tx mark_no_show mark_no_show_tx rollup_and_notify
      request execute_tx finish opening find_item update_reservation_item delete_ledger_rows_by_item
      delete_ledger_rows_by_item_from_date
  move_item-writes cancelling seen f e h = record {
    allowed = ground arith;
    ledger = ground arith;
    items = ground arith;
    answer = ground arith;
  }
  move_item-writes arriving seen f e h = record {
    allowed = ground arith;
    ledger = ground (arith, delete-none db.ledger);
    items = ground arith;
    answer = ground arith;
  }
  move_item-writes departing seen f e h = record {
    allowed = ground arith;
    ledger = ground (arith, delete-none db.ledger);
    items = ground arith;
    answer = ground arith;
  }
  move_item-writes missing seen f e h = record {
    allowed = ground arith;
    ledger = ground arith;
    items = ground arith;
    answer = ground arith;
  }

  concluded :
      (m : Move) (seen : Item)
      → count_where (λ i. i.id == id) db.items ≤ 1
      → find_where (is_live_item env id) db.items ≡ some old
      → find_where (is_item_version env old.id env.if_match) db.items ≡ some seen
      → Moved m env id db (move_item m env id db).db old seen new
      → (validate_item_transition old.status (goal_of m) ≡ true)
        × (old.version ≡ env.if_match)
        × (new.status ≡ goal_of m)
        × (new.version ≡ env.if_match + 1)
        × (find_where (is_live_item env id) (move_item m env id db).db.items ≡ some new)
        × ((move_item m env id db).db.ledger ≡ delete_where (frees m env id) db.ledger)
  concluded m seen u f e w =
      let live = find_holds (is_live_item env id) db.items old f in
      let matched = find_holds (is_item_version env old.id env.if_match) db.items seen e in
      let same : seen ≡ old =
        find-same (is_live_item env id) (is_item_version env old.id env.if_match) (λ i. i.id == id)
          db.items old seen u (λ i q. ground arith) (λ i q. ground (arith, live)) f e in
      let after =
        find-update_some (is_live_item env id) (is_item_version env old.id env.if_match)
          (with_params env (status_params old env.if_match (goal_of m))) db.items old (λ i. refl)
          f in
      (
        w.allowed,
        ground (arith, matched, same),
        ground (arith, w.answer),
        ground (arith, w.answer, matched),
        ground (arith, after, w.answer, w.items, matched, same),
        w.ledger,
      )

  -- A move of an item that succeeds was allowed by the transition table and asked for at the row's
  -- version; the row then has the status that the move leads to and the next version, and the
  -- ledger loses the rows that the move frees and no others. The ids of the items are unique.
  pub move_item-step :
      (m : Move)
      → count_where (λ i. i.id == id) db.items ≤ 1
      → find_where (is_live_item env id) db.items ≡ some old
      → (move_item m env id db).result ≡ ok new
      → (validate_item_transition old.status (goal_of m) ≡ true)
        × (old.version ≡ env.if_match)
        × (new.status ≡ goal_of m)
        × (new.version ≡ env.if_match + 1)
        × (find_where (is_live_item env id) (move_item m env id db).db.items ≡ some new)
        × ((move_item m env id db).db.ledger ≡ delete_where (frees m env id) db.ledger)
  move_item-step m u f h =
      elim (Option-cases (find_where (is_item_version env old.id env.if_match) db.items)) [
        | inl e ↦ elim (move_item-unmatched m f e h) [ ]
        | inr (seen, e) ↦ concluded m seen u f e (move_item-writes m seen f e h)
      ]
