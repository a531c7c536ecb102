-- ===== src/Service.antt =====
-- internal/booking/service.go: the service as a whole, as a sequence of requests and of the
-- workers' transactions over the same tables, taken one after the other.
pub mod Guarantees
pub mod Vacancies
mod Fixtures
mod Examples
mod Runs
mod Lists
mod Edits
use yop_pms.Prelude.{ℕ, String, Bool, Option, none, some, List, [], ◌∷◌}
use yop_pms.Store.{Db, Env, Item, Reservation}
use yop_pms.Booking.Lifecycle.{
  cancel_reservation, cancel_item, checkin_item, checkout_item, mark_no_show,
  reactivate_reservation,
}
use yop_pms.Booking.Batch.{checkin_reservation, checkout_reservation}
use yop_pms.Booking.Response.{IncludeFlags}
use yop_pms.Booking.Create.{CreateInput, CreateItemInput, create_reservation}
use yop_pms.Booking.Confirm.{confirm_reservation, update_metadata}
use yop_pms.Booking.Update.Change.{
  update_item_stay_period, assign_room, update_item_room_type, update_item_rate_plan, add_item,
}
use yop_pms.Booking.Update.Edit.{update_item}
use yop_pms.Booking.Workers.{cancel_hold_tx, mark_overstay_tx, archive_reservation_tx}

-- The methods of `Service` that write, with their arguments.
pub data Request : Type 0 where
  create : CreateInput → IncludeFlags → Request
  confirm : ℕ → IncludeFlags → Request
  metadata : ℕ → Option String → Option ℕ → Request
  cancel no_show_item cancel_one checkin checkout reactivate : ℕ → Request
  checkin_all checkout_all : ℕ → Request
  stay_period : ℕ → ℕ → ℕ → Request
  room : ℕ → ℕ → String → Request
  room_type : ℕ → ℕ → Bool → String → Request
  rate_plan : ℕ → ℕ → Request
  item : ℕ → CreateItemInput → Request
  add : ℕ → CreateItemInput → Request

-- The tables that a request leaves.
unfoldable pub serve : Request → Env → Db → Db
serve (create input include) env db = (create_reservation env input include db).db
serve (confirm id include) env db = (confirm_reservation env id include db).db
serve (metadata id notes guest) env db = (update_metadata env id notes guest db).db
serve (cancel id) env db = (cancel_reservation env id db).db
serve (no_show_item id) env db = (mark_no_show env id db).db
serve (cancel_one id) env db = (cancel_item env id db).db
serve (checkin id) env db = (checkin_item env id db).db
serve (checkout id) env db = (checkout_item env id db).db
serve (reactivate id) env db = (reactivate_reservation env id db).db
serve (checkin_all id) env db = (checkin_reservation env id db).db
serve (checkout_all id) env db = (checkout_reservation env id db).db
serve (stay_period id arrival departure) env db =
    (update_item_stay_period env id arrival departure db).db
serve (room id to reason) env db = (assign_room env id to reason db).db
serve (room_type id to retain reason) env db = (update_item_room_type env id to retain reason db).db
serve (rate_plan id plan) env db = (update_item_rate_plan env id plan db).db
serve (item id input) env db = (update_item env id input db).db
serve (add id input) env db = (add_item env id input db).db

-- The transaction of a worker for one row that its query found.
pub data Sweep : Type 0 where
  expire archive : Reservation → Sweep
  overstay_item : Item → Sweep

unfoldable pub sweep : Sweep → Env → Db → Db
sweep (expire res) env db = (cancel_hold_tx env res db).db
sweep (archive res) env db = (archive_reservation_tx env res db).db
sweep (overstay_item i) env db = (mark_overstay_tx env i db).db

-- What may come next, and in which environment.
pub data Event : Type 0 where
  request : Request → Env → Event
  worker : Sweep → Env → Event

unfoldable pub after_event : Event → Db → Db
after_event (request r env) db = serve r env db
after_event (worker s env) db = sweep s env db

-- `Reaches db db'`: some sequence of events takes the tables from `db` to `db'`.
pub data Reaches (db : Db) : Db → Type 0 where
  start : Reaches db db
  next : (seen : Db) (e : Event) → Reaches db seen → Reaches db (after_event e seen)
