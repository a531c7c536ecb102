-- ===== src/Booking/Outcome/Change.antt =====
-- What the changes of Booking/Update/Change.antt do to an item, and what the conflict check of the
-- ledger sees.
use yop_pms.Prelude.{
  ℕ, String, ◌≤◌, ◌≡◌, refl, Bool, false, not, inl, inr, none, some, List, [], ◌∷◌, ◌==◌, is_none,
  if◌then◌else◌, any_where, count_where, find_where, select_where, arith, find-same, find_holds,
  Option-cases,
}
use yop_pms.Store.{Db, Env, Item, LedgerRow, ok}
use yop_pms.Store.Tx.{execute_tx, finish, opening}
use yop_pms.Store.Items.{
  is_live_item, is_item_version, with_params, find_item, update_reservation_item,
}
use yop_pms.Store.Ledger.{is_conflict, conflict_check_on_ledger}
use yop_pms.Store.Events.{notify_reservation_change}
use yop_pms.Booking.{request, status_params, require_post_checkin_permission}
use yop_pms.Booking.Update.Change.{
  update_item_room_type, update_item_room_type_tx, guard_do_not_move,
}

conflicts-owned :
    (env : Env) (room : ℕ) (dates : List ℕ) (exclude : ℕ) (ledger : List LedgerRow)
    → any_where (λ r. is_none r.item) (select_where (is_conflict env room dates exclude) ledger)
      ≡ false
unfolding any_where select_where
conflicts-owned env room dates exclude [] = refl
conflicts-owned env room dates exclude (r ∷ ledger) =
    ground (arith, conflicts-owned env room dates exclude ledger)

-- Every conflict that the check of the ledger reports is a row that some item owns: a row without
-- one, such as a room out of order, is never reported.
pub conflict_check-owned :
    (env : Env) (room : ℕ) (dates : List ℕ) (exclude : ℕ) (db db' : Db) (rows : List LedgerRow)
    → conflict_check_on_ledger env room dates exclude db ≡ ok (rows, db')
    → any_where (λ r. is_none r.item) rows ≡ false
unfolding conflict_check_on_ledger
conflict_check-owned env room dates exclude db db' rows h =
    ground (arith, conflicts-owned env room dates exclude db.ledger)

module _ (env : Env) (id room_type : ℕ) (retain : Bool) (reason : String) (db : Db)
    (old new : Item) where
  room_type-unmatched :
      find_where (is_live_item env id) db.items ≡ some old
      → find_where (is_item_version env old.id env.if_match) db.items ≡ none
      → (update_item_room_type env id room_type retain reason db).result ≡ ok new
      → ⊥
  unfolding update_item_room_type update_item_room_type_tx request execute_tx finish opening
      find_item update_reservation_item notify_reservation_change guard_do_not_move
      require_post_checkin_permission
  room_type-unmatched f e h = ground arith

  room_type-answer :
      (seen : Item)
      → find_where (is_live_item env id) db.items ≡ some old
      → find_where (is_item_version env old.id env.if_match) db.items ≡ some seen
      → (update_item_room_type env id room_type retain reason db).result ≡ ok new
      → new
        ≡ with_params env
            (record (status_params old env.if_match old.status) {
              booked_room_type = some room_type;
              rate_plan = if not retain then none else old.rate_plan;
            })
            seen
  unfolding update_item_room_type update_item_room_type_tx request execute_tx finish opening
      find_item update_reservation_item notify_reservation_change guard_do_not_move
      require_post_checkin_permission
  room_type-answer seen f e h = ground arith

  -- A change of room type that succeeds leaves the rate plan as it was, whether or not the price is
  -- to be retained. The ids of the items are unique.
  pub update_item_room_type-retains :
      count_where (λ i. i.id == id) db.items ≤ 1
      → find_where (is_live_item env id) db.items ≡ some old
      → (update_item_room_type env id room_type retain reason db).result ≡ ok new
      → (new.rate_plan ≡ old.rate_plan) × (new.booked_room_type ≡ room_type)
  update_item_room_type-retains u f h =
      elim (Option-cases (find_where (is_item_version env old.id env.if_match) db.items)) [
        | inl e ↦ elim (room_type-unmatched f e h) [ ]
        | inr (seen, e) ↦
            let live = find_holds (is_live_item env id) db.items old f in
            let same : seen ≡ old =
              find-same (is_live_item env id) (is_item_version env old.id env.if_match)
                (λ i. i.id == id) db.items old seen u (λ i q. ground arith)
                (λ i q. ground (arith, live)) f e in
            ground (arith, room_type-answer seen f e h, same)
      ]
