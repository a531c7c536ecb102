-- ===== src/Booking/Keeps/Update.antt =====
-- The requests of Booking/Update.
use yop_pms.Prelude.{ℕ, String, Bool, Bool-cases, inl, inr, ◌==◌}
use yop_pms.Store.{Db, Env, Item, nil_uuid}
use yop_pms.Store.Tx.{Tx}
use yop_pms.Store.Tx.Keeps.{Keeps, keeps_rules, execute_tx-keeps}
use yop_pms.Store.Keeps.Interface.{KeptByStatements}
use yop_pms.Booking.{request, require_post_checkin_permission}
use yop_pms.Booking.Create.{CreateItemInput}
use yop_pms.Booking.Update.Change.{
  guard_do_not_move, shorten_stay, shorten_checked_in, update_item_stay_period_tx, assign_room_tx,
  update_item_room_type_tx, update_item_rate_plan_tx, add_item_tx,
}
use yop_pms.Booking.Keeps.Inventory.{recompute_envelope-Keeps}
use yop_pms.Booking.Keeps.Create.{insert_single_item-Keeps}

-- A request keeps what its transaction keeps.
pub request-keeps :
    {A : Type 0} (P : Db → Type 0) (env : Env) (body : Tx A) (db : Db)
    → Keeps P body
    → P db
    → P (request env body db).db
unfolding request
request-keeps P env body db kb h = elim (Bool-cases (env.property == nil_uuid)) [
  | inl e ↦ rw (e, request) h
  | inr e ↦ rw (e, request) (execute_tx-keeps P env body db kb h)
]

module _ {env : Env} {P : Db → Type 0} (k : KeptByStatements env P) where
  permission-Keeps : (item : Item) → Keeps P (require_post_checkin_permission env item)
  unfolding require_post_checkin_permission
  permission-Keeps item = search keeps_rules

  guard-Keeps : (item : Item) (reason : String) → Keeps P (guard_do_not_move env item reason)
  unfolding guard_do_not_move
  guard-Keeps item reason = search keeps_rules

  shorten_stay-Keeps : (item : Item) (departure : ℕ) → Keeps P (shorten_stay env item departure)
  unfolding shorten_stay
  shorten_stay-Keeps item departure = search (keeps_rules, k.delete_from_date_keeps) depth 8

  shorten_checked_in-Keeps :
      (item : Item) (arrival departure : ℕ)
      → Keeps P (shorten_checked_in env item arrival departure)
  unfolding shorten_checked_in
  shorten_checked_in-Keeps item arrival departure =
      search (keeps_rules, permission-Keeps, shorten_stay-Keeps) depth 8

  pub update_item_stay_period-Keeps :
      (id arrival departure : ℕ) → Keeps P (update_item_stay_period_tx env id arrival departure)
  unfolding update_item_stay_period_tx
  update_item_stay_period-Keeps id arrival departure =
      search
        (
          keeps_rules,
          k.find_item_keeps,
          shorten_checked_in-Keeps,
          k.update_item_keeps,
          recompute_envelope-Keeps k,
          k.notify_keeps,
        )
        depth 20

  pub assign_room-Keeps :
      (id room : ℕ) (reason : String) → Keeps P (assign_room_tx env id room reason)
  unfolding assign_room_tx
  assign_room-Keeps id room reason =
      search
        (
          keeps_rules, k.find_item_keeps, guard-Keeps, permission-Keeps, k.update_item_keeps,
          k.update_ledger_room_keeps, k.notify_keeps,
        )
        depth 20

  pub update_item_room_type-Keeps :
      (id room_type : ℕ) (retain : Bool) (reason : String)
      → Keeps P (update_item_room_type_tx env id room_type retain reason)
  unfolding update_item_room_type_tx
  update_item_room_type-Keeps id room_type retain reason =
      search
        (
          keeps_rules, k.find_item_keeps, guard-Keeps, permission-Keeps, k.update_item_keeps,
          k.notify_keeps,
        )
        depth 20

  pub update_item_rate_plan-Keeps : (id plan : ℕ) → Keeps P (update_item_rate_plan_tx env id plan)
  unfolding update_item_rate_plan_tx
  update_item_rate_plan-Keeps id plan =
      search (keeps_rules, k.find_item_keeps, permission-Keeps, k.update_item_keeps, k.notify_keeps)
        depth 20

  pub add_item-Keeps : (id : ℕ) (input : CreateItemInput) → Keeps P (add_item_tx env id input)
  unfolding add_item_tx
  add_item-Keeps id input =
      search
        (
          keeps_rules,
          k.find_reservation_keeps,
          insert_single_item-Keeps k,
          recompute_envelope-Keeps k,
          k.notify_keeps,
        )
        depth 20
