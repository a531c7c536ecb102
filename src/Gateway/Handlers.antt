-- ===== src/Gateway/Handlers.antt =====
-- The handlers of internal/booking (create.go, update.go, lifecycle.go) for the requests that write, behind the
-- middleware.
use Prim.Native.String.{len}
use text.Mathlib.Text.{◌==◌ as str_eq}
use yop_pms.Prelude.{
  ℕ, String, Bool, true, false, not, Option, none, some, List, [], ◌∷◌, map, ltb, if◌then◌else◌,
}
use yop_pms.Store.{Db, Env}
use yop_pms.Booking.Response.{IncludeFlags}
use yop_pms.Booking.Create.{create_reservation}
use yop_pms.Booking.Confirm.{confirm_reservation, update_metadata}
use yop_pms.Booking.Lifecycle.{
  cancel_reservation, cancel_item, checkin_item, checkout_item, mark_no_show,
  reactivate_reservation,
}
use yop_pms.Booking.Batch.{batch_status, checkin_reservation, checkout_reservation}
use yop_pms.Booking.Update.Change.{assign_room, add_item}
use yop_pms.Booking.Update.Edit.{update_item}
use yop_pms.Gateway.{
  Route, create_route, metadata_route, confirm_route, cancel_route, reactivate_route,
  checkin_all_route, checkout_all_route, add_item_route, update_item_route, checkin_route,
  checkout_route, assign_room_route, no_show_route, cancel_item_route, HttpRequest, MetadataInput,
  Formats, Answered, refuse, answer, Entry, turned_away, admitted, front,
}

abbrev ok_status : {A : Type 0} → A → ℕ
ok_status a = 200

abbrev created_status : {A : Type 0} → A → ℕ
created_status a = 201

abbrev pub is_long : Option String → Bool
is_long none = false
is_long (some notes) = ltb 2500 (len notes)

-- The switch of ParseIncludeFlags for one part.
abbrev with_part : String → IncludeFlags → IncludeFlags
with_part part flags =
    if str_eq part "items"
    then record flags { items = true }
    else if str_eq part "guest"
    then record flags { guest = true }
    else if str_eq part "none"
    then record flags { omit = true; items = false }
    else flags

unfoldable pub with_parts : List String → IncludeFlags → IncludeFlags
with_parts [] flags = flags
with_parts (part ∷ parts) flags = with_parts parts (with_part part flags)

module _ (f : Formats) where
  -- ParseIncludeFlags
  unfoldable pub parse_include_flags : String → IncludeFlags
  unfolding with_parts
  parse_include_flags raw =
      let flags : IncludeFlags = record { items = true; guest = false; omit = false } in
      if str_eq raw "" then flags else with_parts (map f.trim_space (f.split_commas raw)) flags

  -- ReadJSON, then validation.Struct.
  abbrev pub valid : {I : Type 0} → (I → Bool) → Option I → Db → (I → Answered) → Answered
  valid is_valid none db next = refuse 400 db
  valid is_valid (some input) db next = if is_valid input then next input else refuse 422 db

  abbrev pub read_metadata : Option MetadataInput → Db → (MetadataInput → Answered) → Answered
  read_metadata none db next = refuse 400 db
  read_metadata (some input) db next = if is_long input.notes then refuse 422 db else next input

  -- ParseUUIDParam
  abbrev pub with_id : Option ℕ → Db → (ℕ → Answered) → Answered
  with_id none db next = refuse 400 db
  with_id (some id) db next = next id

  abbrev id_of : HttpRequest → Option ℕ
  id_of req = f.parse_uuid req.id

  -- Create
  unfoldable pub handle_create : HttpRequest → Env → Db → Answered
  unfolding parse_include_flags
  handle_create req env db =
      valid f.is_valid_create (f.create_body req.body) db
        (λ i. answer created_status (create_reservation env i (parse_include_flags req.include) db))

  -- UpdateMetadata
  unfoldable pub handle_metadata : HttpRequest → Env → Db → Answered
  handle_metadata req env db = with_id (id_of req) db (λ id.
      read_metadata (f.metadata_body req.body) db
        (λ i. answer ok_status (update_metadata env id i.notes i.primary_guest db)))

  -- Confirm
  unfoldable pub handle_confirm : HttpRequest → Env → Db → Answered
  unfolding parse_include_flags
  handle_confirm req env db =
      with_id (id_of req) db
        (λ id. answer ok_status (confirm_reservation env id (parse_include_flags req.include) db))

  -- ReadJSON and validation.Struct of Cancel.
  abbrev pub cancel_input : HttpRequest → Db → Answered → Answered
  cancel_input req db next =
      if not (f.is_cancel_body req.body)
      then refuse 400 db
      else if f.is_valid_cancel req.body
      then next
      else refuse 422 db

  -- Cancel
  unfoldable pub handle_cancel : HttpRequest → Env → Db → Answered
  handle_cancel req env db =
      with_id (id_of req) db
        (λ id. cancel_input req db (answer ok_status (cancel_reservation env id db)))

  -- Reactivate
  unfoldable pub handle_reactivate : HttpRequest → Env → Db → Answered
  handle_reactivate req env db =
      with_id (id_of req) db (λ id. answer ok_status (reactivate_reservation env id db))

  -- CheckinReservation
  unfoldable pub handle_checkin_all : HttpRequest → Env → Db → Answered
  handle_checkin_all req env db =
      with_id (id_of req) db (λ id. answer batch_status (checkin_reservation env id db))

  -- CheckoutReservation
  unfoldable pub handle_checkout_all : HttpRequest → Env → Db → Answered
  handle_checkout_all req env db =
      with_id (id_of req) db (λ id. answer batch_status (checkout_reservation env id db))

  -- AddItem
  unfoldable pub handle_add_item : HttpRequest → Env → Db → Answered
  handle_add_item req env db = with_id (id_of req) db (λ id.
      valid f.is_valid_item (f.item_body req.body) db
        (λ i. answer created_status (add_item env id i db)))

  -- UpdateItem
  unfoldable pub handle_update_item : HttpRequest → Env → Db → Answered
  handle_update_item req env db = with_id (id_of req) db (λ id.
      valid f.is_valid_item (f.item_body req.body) db
        (λ i. answer ok_status (update_item env id i db)))

  -- CheckinItem
  unfoldable pub handle_checkin : HttpRequest → Env → Db → Answered
  handle_checkin req env db =
      with_id (id_of req) db (λ id. answer ok_status (checkin_item env id db))

  -- CheckoutItem
  unfoldable pub handle_checkout : HttpRequest → Env → Db → Answered
  handle_checkout req env db =
      with_id (id_of req) db (λ id. answer ok_status (checkout_item env id db))

  -- AssignRoom
  unfoldable pub handle_assign_room : HttpRequest → Env → Db → Answered
  handle_assign_room req env db = with_id (id_of req) db (λ id.
      valid f.is_valid_room (f.room_body req.body) db
        (λ i. answer ok_status (assign_room env id i.room i.override_reason db)))

  -- MarkNoShow
  unfoldable pub handle_no_show : HttpRequest → Env → Db → Answered
  handle_no_show req env db =
      with_id (id_of req) db (λ id. answer ok_status (mark_no_show env id db))

  -- CancelItem
  unfoldable pub handle_cancel_item : HttpRequest → Env → Db → Answered
  handle_cancel_item req env db = with_id (id_of req) db (λ id.
      if f.is_cancel_body req.body then answer ok_status (cancel_item env id db) else refuse 400 db)

  -- The handler of a route.
  unfoldable pub handle : Route → HttpRequest → Env → Db → Answered
  unfolding handle_create handle_metadata handle_confirm handle_cancel handle_reactivate
      handle_checkin_all handle_checkout_all handle_add_item handle_update_item handle_checkin
      handle_checkout handle_assign_room handle_no_show handle_cancel_item
  handle create_route = handle_create
  handle metadata_route = handle_metadata
  handle confirm_route = handle_confirm
  handle cancel_route = handle_cancel
  handle reactivate_route = handle_reactivate
  handle checkin_all_route = handle_checkin_all
  handle checkout_all_route = handle_checkout_all
  handle add_item_route = handle_add_item
  handle update_item_route = handle_update_item
  handle checkin_route = handle_checkin
  handle checkout_route = handle_checkout
  handle assign_room_route = handle_assign_room
  handle no_show_route = handle_no_show
  handle cancel_item_route = handle_cancel_item

  abbrev pub past_front : Route → HttpRequest → Db → Entry → Answered
  past_front route req db (turned_away status) = refuse status db
  past_front route req db (admitted env) = handle route req env db

  -- A request, from its headers to its answer.
  unfoldable pub respond : Route → HttpRequest → Env → Db → Answered
  unfolding handle front
  respond route req env db = past_front route req db (front f route req env)
