-- ===== src/Service/Guarantees.antt =====
-- The requests and the workers' transactions of Service.antt (internal/booking), whatever they are
-- asked to do and wherever the database fails them.
use yop_pms.Prelude.{ℕ, ◌≤◌, ◌≡◌, refl}
use yop_pms.Store.{Db, Env, Result, ok, err}
use yop_pms.Store.Tx.Keeps.{execute_tx-keeps}
use yop_pms.Store.Keeps.Interface.{KeptByStatements}
use yop_pms.Store.Keeps.Isolation.{Isolated, statements-Isolated}
use yop_pms.Store.Keeps.NoDouble.{rows_at, Single, statements-Single}
use yop_pms.Booking.Lifecycle.{
  cancel_reservation, cancel_item, checkin_item, checkout_item, mark_no_show,
  reactivate_reservation,
}
use yop_pms.Booking.Batch.{checkin_reservation, checkout_reservation, checkin_one, checkout_one}
use yop_pms.Booking.Create.{
  CreateInput, Initial, initial_of, create_reservation, create_reservation_tx,
}
use yop_pms.Booking.Response.{IncludeFlags}
use yop_pms.Booking.Confirm.{confirm_reservation, update_metadata}
use yop_pms.Booking.Update.Change.{
  update_item_stay_period, assign_room, update_item_room_type, update_item_rate_plan, add_item,
}
use yop_pms.Booking.Workers.{as_worker, cancel_hold_tx, mark_overstay_tx, archive_reservation_tx}
use yop_pms.Booking.Keeps.Lifecycle.{
  cancel_reservation-Keeps, cancel_item-Keeps, checkin_item-Keeps, checkout_item-Keeps,
  mark_no_show-Keeps, reactivate_reservation-Keeps, checkin_one-Keeps, checkout_one-Keeps,
  batch-Keeps,
}
use yop_pms.Booking.Keeps.Create.{
  create_reservation-Keeps, confirm_reservation-Keeps, update_metadata-Keeps,
}
use yop_pms.Booking.Keeps.Update.{
  request-keeps, update_item_stay_period-Keeps, assign_room-Keeps, update_item_room_type-Keeps,
  update_item_rate_plan-Keeps, add_item-Keeps,
}
use yop_pms.Booking.Keeps.Edit.{update_item_keeps}
use yop_pms.Booking.Keeps.Workers.{
  worker_tx-keeps, cancel_hold-Keeps, mark_overstay-Keeps, archive-Keeps,
}
use yop_pms.Service.{
  Request, create, confirm, metadata, cancel, no_show_item, cancel_one, checkin, checkout,
  reactivate, checkin_all, checkout_all, stay_period, room, room_type, rate_plan, item, add, serve,
  Sweep, expire, archive, overstay_item, sweep, Event, worker, after_event, Reaches, start, next,
}

module _ {env : Env} {P : Db → Type 0} (k : KeptByStatements env P) where
  created_keeps :
      (input : CreateInput) (include : IncludeFlags) (db : Db)
      → P db
      → P (create_reservation env input include db).db
  unfolding create_reservation
  created_keeps input include db h = go (initial_of input) refl
    where
      go :
          (i : Result Initial)
          → initial_of input ≡ i
          → P (create_reservation env input include db).db
      go (err x) e = rw (e, create_reservation) h
      go (ok i) e =
          rw (e, create_reservation)
            (execute_tx-keeps P env (create_reservation_tx env input i include) db
              (create_reservation-Keeps k input i include) h)

  -- Every request keeps what the statements keep.
  pub serve_keeps : (r : Request) (db : Db) → P db → P (serve r env db)
  unfolding serve confirm_reservation update_metadata cancel_reservation mark_no_show cancel_item
      checkin_item checkout_item reactivate_reservation checkin_reservation checkout_reservation
      update_item_stay_period assign_room update_item_room_type update_item_rate_plan add_item
  serve_keeps (create input include) db h = created_keeps input include db h
  serve_keeps (confirm id include) db h =
      execute_tx-keeps P env _ db (confirm_reservation-Keeps k id include) h
  serve_keeps (metadata id notes guest) db h =
      execute_tx-keeps P env _ db (update_metadata-Keeps k id notes guest) h
  serve_keeps (cancel id) db h = request-keeps P env _ db (cancel_reservation-Keeps k id) h
  serve_keeps (no_show_item id) db h = request-keeps P env _ db (mark_no_show-Keeps k id) h
  serve_keeps (cancel_one id) db h = request-keeps P env _ db (cancel_item-Keeps k id) h
  serve_keeps (checkin id) db h = request-keeps P env _ db (checkin_item-Keeps k id) h
  serve_keeps (checkout id) db h = request-keeps P env _ db (checkout_item-Keeps k id) h
  serve_keeps (reactivate id) db h = request-keeps P env _ db (reactivate_reservation-Keeps k id) h
  serve_keeps (checkin_all id) db h =
      request-keeps P env _ db (batch-Keeps k (checkin_one env) (checkin_one-Keeps k) id) h
  serve_keeps (checkout_all id) db h =
      request-keeps P env _ db (batch-Keeps k (checkout_one env) (checkout_one-Keeps k) id) h
  serve_keeps (stay_period id arrival departure) db h =
      request-keeps P env _ db (update_item_stay_period-Keeps k id arrival departure) h
  serve_keeps (room id to reason) db h =
      request-keeps P env _ db (assign_room-Keeps k id to reason) h
  serve_keeps (room_type id to retain reason) db h =
      request-keeps P env _ db (update_item_room_type-Keeps k id to retain reason) h
  serve_keeps (rate_plan id plan) db h =
      request-keeps P env _ db (update_item_rate_plan-Keeps k id plan) h
  serve_keeps (item id input) db h = update_item_keeps k id input db h
  serve_keeps (add id input) db h = request-keeps P env _ db (add_item-Keeps k id input) h

-- A worker's transaction keeps what the statements of its row's property keep.
sweep_keeps :
    (P : Db → Type 0)
    → ((env : Env) → KeptByStatements env P)
    → (s : Sweep) (env : Env) (db : Db) → P db
    → P (sweep s env db)
unfolding sweep cancel_hold_tx mark_overstay_tx archive_reservation_tx
sweep_keeps P k (expire res) env db h =
    worker_tx-keeps P _ _ db (cancel_hold-Keeps (k (as_worker env res.property)) res) h
sweep_keeps P k (archive res) env db h =
    worker_tx-keeps P _ _ db (archive-Keeps (k (as_worker env res.property)) res) h
sweep_keeps P k (overstay_item i) env db h =
    worker_tx-keeps P _ _ db (mark_overstay-Keeps (k (as_worker env i.property)) i) h

-- A request leaves the reservations, items, ledger rows and guests of every other property as they
-- were.
pub serve-Isolated : (r : Request) (env : Env) (db : Db) → Isolated env db (serve r env db)
serve-Isolated r env db =
    serve_keeps (statements-Isolated env db) r db
      (record { reservations = refl; items = refl; ledger = refl; guests = refl })

-- No sequence of requests and of workers' transactions sells a room twice: where a room has at most
-- one ledger row for a date, it has at most one after them.
pub Reaches-Single :
    (number date : ℕ) (db db' : Db)
    → Reaches db db'
    → rows_at number date db.ledger ≤ 1
    → rows_at number date db'.ledger ≤ 1
unfolding after_event
Reaches-Single number date db _ start h = h
Reaches-Single number date db _ (next seen (Event.request r env) t) h =
    serve_keeps (statements-Single number date env) r seen (Reaches-Single number date db seen t h)
Reaches-Single number date db _ (next seen (worker s env) t) h =
    sweep_keeps (Single number date) (λ e. statements-Single number date e) s env seen
      (Reaches-Single number date db seen t h)
