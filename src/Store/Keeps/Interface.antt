-- ===== src/Store/Keeps/Interface.antt =====
-- What it takes for a fact about the tables to be kept by every statement (internal/store).
use yop_pms.Prelude.{ℕ, String, ◌≡◌, Bool, List}
use yop_pms.Status.{ReservationStatus}
use yop_pms.Store.{Db, Env, Item}
use yop_pms.Store.Tx.Keeps.{Keeps}
use yop_pms.Store.Reservations.{
  find_reservation, update_reservation_status, update_reservation_metadata, UpdateMetadataParams,
  CreateReservationParams, insert_reservation, insert_guest, find_guest,
}
use yop_pms.Store.Items.{
  UpdateItemParams, find_item, find_items, update_reservation_item, insert_item,
  cancel_reservation_items, reactivate_reservation_items, archive_reservation_items,
}
use yop_pms.Store.Ledger.{
  conflict_check_on_ledger, select_room_for_auto_pin, bulk_insert_ledger_rows, sold_row,
  update_ledger_row_room, delete_ledger_rows_by_item, delete_ledger_rows_by_item_from_date,
  delete_ledger_for_reservation, get_room_type_occupancy, get_rate,
}
use yop_pms.Store.Events.{notify_reservation_change, enqueue_confirmation}

pub record KeptByStatements (env : Env) (P : Db → Type 0) : Type 0 where
  pub blind : (db : Db) (b : Bool) → P db → P (record db { aborted = b })
  pub find_reservation_keeps : (k id : ℕ) → Keeps P (find_reservation env k id)
  pub update_status_keeps :
      (id version : ℕ) (s : ReservationStatus)
      → Keeps P (update_reservation_status env id version s)
  pub update_metadata_keeps :
      (p : UpdateMetadataParams) → Keeps P (update_reservation_metadata env p)
  pub insert_reservation_keeps : (p : CreateReservationParams) → Keeps P (insert_reservation env p)
  pub insert_guest_keeps : (first last : String) → Keeps P (insert_guest env first last)
  pub find_guest_keeps : (id : ℕ) → Keeps P (find_guest env id)
  pub find_item_keeps : (id : ℕ) → Keeps P (find_item env id)
  pub find_items_keeps : (k id : ℕ) → Keeps P (find_items env k id)
  pub update_item_keeps : (k : ℕ) (p : UpdateItemParams) → Keeps P (update_reservation_item env k p)
  pub insert_item_keeps :
      (new_item : ℕ → Item)
      → ((id : ℕ) → (new_item id).property ≡ env.property)
      → Keeps P (insert_item env new_item)
  pub cancel_items_keeps : (id : ℕ) → Keeps P (cancel_reservation_items env id)
  pub reactivate_items_keeps : (id : ℕ) → Keeps P (reactivate_reservation_items env id)
  pub archive_items_keeps : (id : ℕ) → Keeps P (archive_reservation_items env id)
  pub conflict_check_keeps :
      (room : ℕ) (dates : List ℕ) (exclude : ℕ)
      → Keeps P (conflict_check_on_ledger env room dates exclude)
  pub auto_pin_keeps :
      (room_type : ℕ) (dates : List ℕ) → Keeps P (select_room_for_auto_pin env room_type dates)
  pub bulk_insert_keeps :
      (room reservation item : ℕ) (dates : List ℕ)
      → Keeps P (bulk_insert_ledger_rows env (sold_row env room reservation item) dates)
  pub update_ledger_room_keeps : (id room : ℕ) → Keeps P (update_ledger_row_room env id room)
  pub delete_by_item_keeps : (id : ℕ) → Keeps P (delete_ledger_rows_by_item env id)
  pub delete_from_date_keeps :
      (id from : ℕ) → Keeps P (delete_ledger_rows_by_item_from_date env id from)
  pub delete_by_reservation_keeps : (id : ℕ) → Keeps P (delete_ledger_for_reservation env id)
  pub occupancy_keeps : (id : ℕ) → Keeps P (get_room_type_occupancy env id)
  pub rate_keeps :
      (date room_type plan weekday : ℕ) → Keeps P (get_rate env date room_type plan weekday)
  pub notify_keeps : (action : String) (id : ℕ) → Keeps P (notify_reservation_change env action id)
  pub enqueue_keeps : (id : ℕ) → Keeps P (enqueue_confirmation env id)
