-- ===== src/Booking/Keeps/Lifecycle.antt =====
-- The requests of Booking/Lifecycle.antt and Booking/Batch.antt.
use yop_pms.Prelude.{ℕ, List, [], ◌∷◌}
use yop_pms.Status.{ItemStatus}
use yop_pms.Store.{Db, Env, Item}
use yop_pms.Store.Tx.{Tx}
use yop_pms.Store.Tx.Keeps.{Keeps, Keeps-attempt, keeps_rules, Keeps-bind, Keeps-return}
use yop_pms.Store.Keeps.Interface.{KeptByStatements}
use yop_pms.Booking.Lifecycle.{
  rollup_and_notify, cancel_reservation_tx, cancel_item_tx, checkin_item_tx, checkout_item_tx,
  mark_no_show_tx, reactivate_reservation_tx, reactivate_inventories,
}
use yop_pms.Booking.Batch.{BatchItem, try_status, checkin_one, checkout_one, each_item, batch_tx}
use yop_pms.Booking.Keeps.Inventory.{reactivate_item_inventory-Keeps}

module _ {env : Env} {P : Db → Type 0} (k : KeptByStatements env P) where
  rollup-Keeps : (id : ℕ) → Keeps P (rollup_and_notify env id)
  unfolding rollup_and_notify
  rollup-Keeps id = search keeps_rules

  pub cancel_reservation-Keeps : (id : ℕ) → Keeps P (cancel_reservation_tx env id)
  unfolding cancel_reservation_tx
  cancel_reservation-Keeps id =
      search
        (
          keeps_rules, k.find_reservation_keeps, k.find_items_keeps, k.cancel_items_keeps,
          k.delete_by_reservation_keeps, k.update_status_keeps, k.notify_keeps,
        )
        depth 30

  pub cancel_item-Keeps : (id : ℕ) → Keeps P (cancel_item_tx env id)
  unfolding cancel_item_tx
  cancel_item-Keeps id =
      search
        (keeps_rules, k.find_item_keeps, k.update_item_keeps, k.delete_by_item_keeps, rollup-Keeps)
        depth 20

  pub checkin_item-Keeps : (id : ℕ) → Keeps P (checkin_item_tx env id)
  unfolding checkin_item_tx
  checkin_item-Keeps id =
      search (keeps_rules, k.find_item_keeps, k.update_item_keeps, rollup-Keeps) depth 20

  pub checkout_item-Keeps : (id : ℕ) → Keeps P (checkout_item_tx env id)
  unfolding checkout_item_tx
  checkout_item-Keeps id =
      search (keeps_rules, k.find_item_keeps, k.update_item_keeps, rollup-Keeps) depth 20

  pub mark_no_show-Keeps : (id : ℕ) → Keeps P (mark_no_show_tx env id)
  unfolding mark_no_show_tx
  mark_no_show-Keeps id =
      search
        (
          keeps_rules, k.find_item_keeps, k.update_item_keeps, k.delete_from_date_keeps,
          rollup-Keeps,
        )
        depth 20

  reactivate_inventories-Keeps : (items : List Item) → Keeps P (reactivate_inventories env items)
  unfolding reactivate_inventories
  reactivate_inventories-Keeps [] = search keeps_rules
  reactivate_inventories-Keeps (item ∷ items) =
      Keeps-bind _ _ (reactivate_item_inventory-Keeps k item)
        λ _. reactivate_inventories-Keeps items

  pub reactivate_reservation-Keeps : (id : ℕ) → Keeps P (reactivate_reservation_tx env id)
  unfolding reactivate_reservation_tx
  reactivate_reservation-Keeps id =
      search
        (
          keeps_rules, k.find_reservation_keeps, k.find_items_keeps, k.reactivate_items_keeps,
          k.update_status_keeps, k.notify_keeps, reactivate_inventories-Keeps,
        )
        depth 30

  try_status-Keeps : (item : Item) (status : ItemStatus) → Keeps P (try_status env item status)
  try_status-Keeps item status =
      search (keeps_rules, Keeps-attempt k.blind, k.update_item_keeps) depth 10

  pub checkin_one-Keeps : (item : Item) → Keeps P (checkin_one env item)
  unfolding checkin_one
  checkin_one-Keeps item = search (keeps_rules, try_status-Keeps) depth 10

  pub checkout_one-Keeps : (item : Item) → Keeps P (checkout_one env item)
  unfolding checkout_one
  checkout_one-Keeps item = search (keeps_rules, try_status-Keeps) depth 10

  each_item-Keeps :
      (one : Item → Tx BatchItem)
      → ((item : Item) → Keeps P (one item))
      → (items : List Item) → Keeps P (each_item one items)
  unfolding each_item
  each_item-Keeps one h [] = search keeps_rules
  each_item-Keeps one h (item ∷ items) =
      Keeps-bind _ _ (h item)
        λ r. Keeps-bind _ _ (each_item-Keeps one h items) λ rest. Keeps-return _

  pub batch-Keeps :
      (one : Item → Tx BatchItem)
      → ((item : Item) → Keeps P (one item))
      → (id : ℕ) → Keeps P (batch_tx env one id)
  unfolding batch_tx
  batch-Keeps one h id =
      search (keeps_rules, k.find_items_keeps, each_item-Keeps one h, rollup-Keeps) depth 10
