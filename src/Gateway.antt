-- ===== src/Gateway.antt =====
-- The requests that write, from HTTP to the service: internal/platform/middleware (auth.go, ifmatch.go,
-- permission.go), internal/booking/router.go and the handlers of create.go, update.go and lifecycle.go.
pub mod Handlers
pub mod Reads
pub mod Front
pub mod Effects
pub mod Replay
mod Examples
use text.Mathlib.Text.{◌==◌ as str_eq}
use yop_pms.Prelude.{
  ℕ, ◌^◌, ◌%◌, String, Bool, true, false, not, Option, none, some, List, [], ◌∷◌, map, leb, ltb,
  if◌then◌else◌, select_where,
}
use yop_pms.Availability.{ℤ, pos, negsuc}
use yop_pms.Store.{
  Db, Env, Err, Result, ok, err, ApiError, holds, nil_uuid, not_found, bad_request, conflict,
  internal_error, unprocessable, no_property_context, version_mismatch, invalid_transition,
  unassigned_items, invalid_dates, source_deferred, guest_not_attached, room_not_available,
  do_not_move, missing_permission, terminal,
}
use yop_pms.Store.Tx.{Reply, surface}
use yop_pms.Booking.Create.{CreateInput, CreateItemInput}

-- The routes of the reservations that write.
pub data Route : Type 0 where
  create_route metadata_route confirm_route cancel_route reactivate_route : Route
  checkin_all_route checkout_all_route add_item_route : Route
  update_item_route checkin_route checkout_route assign_room_route no_show_route cancel_item_route :
      Route

-- RequirePermission, by route
unfoldable pub permission_of : Route → String
permission_of create_route = "reservations:create"
permission_of metadata_route = "reservations:update"
permission_of confirm_route = "reservations:confirm"
permission_of cancel_route = "reservations:cancel"
permission_of reactivate_route = "reservations:reactivate"
permission_of checkin_all_route = "reservations:checkin"
permission_of checkout_all_route = "reservations:checkout"
permission_of add_item_route = "reservations:add_item"
permission_of update_item_route = "reservations:update_item"
permission_of checkin_route = "reservations:checkin"
permission_of checkout_route = "reservations:checkout"
permission_of assign_room_route = "reservations:assign_room"
permission_of no_show_route = "reservations:mark_no_show"
permission_of cancel_item_route = "reservations:cancel"

-- The routes behind `ifMatch`.
unfoldable pub needs_version : Route → Bool
needs_version create_route = false
needs_version checkin_all_route = false
needs_version checkout_all_route = false
needs_version _ = true

-- What the code reads of a request: headers, the id in its path, a query parameter, the body.
pub record HttpRequest : Type 0 where
  pub property_header : String
  pub permissions_header : String
  pub if_match_header : String
  pub id : String
  pub include : String
  pub body : String

pub record MetadataInput : Type 0 where
  pub notes : Option String
  pub primary_guest : Option ℕ

pub record AssignRoomInput : Type 0 where
  pub room : ℕ
  pub override_reason : String

-- The parsers of the libraries, and what the struct validator of internal/platform/validation says of a payload.
pub record Formats : Type 0 where
  pub parse_uuid : String → Option ℕ
  pub split_commas : String → List String
  pub trim_space : String → String
  pub trim_quotes : String → String
  pub atoi : String → Option ℤ
  pub create_body : String → Option CreateInput
  pub item_body : String → Option CreateItemInput
  pub metadata_body : String → Option MetadataInput
  pub room_body : String → Option AssignRoomInput
  pub is_cancel_body : String → Bool
  pub is_valid_create : CreateInput → Bool
  pub is_valid_item : CreateItemInput → Bool
  pub is_valid_room : AssignRoomInput → Bool
  pub is_valid_cancel : String → Bool

-- What is answered: a status, with the tables after it.
pub record Answered : Type 0 where
  pub status : ℕ
  pub db : Db

abbrev pub refuse : ℕ → Db → Answered
refuse status db = record { status = status; db = db }

-- The statuses of the errors, in apierror.go and errors.go.
unfoldable pub status_of : ApiError → ℕ
status_of not_found = 404
status_of bad_request = 400
status_of conflict = 409
status_of internal_error = 500
status_of unprocessable = 422
status_of no_property_context = 400
status_of version_mismatch = 412
status_of invalid_transition = 409
status_of unassigned_items = 409
status_of invalid_dates = 400
status_of source_deferred = 501
status_of guest_not_attached = 409
status_of room_not_available = 409
status_of do_not_move = 403
status_of missing_permission = 403
status_of terminal = 409

-- WriteError, and WriteJSON for an answer of the service.
abbrev status_after : {A : Type 0} → (A → ℕ) → Result A → ℕ
status_after success (ok a) = success a
status_after success (err e) = status_of (surface e)

abbrev pub answer : {A : Type 0} → (A → ℕ) → Reply A → Answered
answer success reply = record { status = status_after success reply.result; db = reply.db }

abbrev pub is_empty : String → Bool
is_empty s = str_eq s ""

-- What the middleware makes of a request.
pub data Entry : Type 0 where
  turned_away : ℕ → Entry
  admitted : Env → Entry

module _ (f : Formats) where
  -- StubAuth: the permissions of a request.
  unfoldable pub permissions_of : String → List String
  unfolding select_where
  permissions_of raw =
      if is_empty raw
      then []
      else select_where (λ p. not (is_empty p)) (map f.trim_space (f.split_commas raw))

  -- The version as an int32; a negative one stands as its residue, which no row has.
  abbrev pub as_int32 : ℕ → ℕ
  as_int32 v = v % 2 ^ 32

  abbrev positive : Option ℤ → Option ℕ
  positive none = none
  positive (some (negsuc v)) = none
  positive (some (pos v)) = if leb 1 v then some (as_int32 v) else none

  -- RequireIfMatch: the version of a request, if it has a valid one.
  unfoldable pub version_of : String → Option ℕ
  version_of raw = if is_empty raw then none else positive (f.atoi (f.trim_quotes raw))

  abbrev pub permitted : Route → Env → Entry
  permitted route env =
      if holds env.permissions (permission_of route) then admitted env else turned_away 403

  abbrev pub versioned : Route → Env → Option ℕ → Entry
  versioned route env none = turned_away 400
  versioned route env (some v) = permitted route (record env { if_match = v })

  abbrev pub matched : Route → HttpRequest → Env → Entry
  matched route req env =
      if needs_version route
      then versioned route env (version_of req.if_match_header)
      else permitted route env

  -- The context that StubAuth makes; no version and no user is in it.
  abbrev pub in_context : Env → ℕ → List String → Env
  in_context env property permissions = record env {
    property = property;
    permissions = permissions;
    user = nil_uuid;
    if_match = 0;
  }

  abbrev pub authenticated : Route → HttpRequest → Env → Option ℕ → Entry
  authenticated route req env none = turned_away 400
  authenticated route req env (some property) =
      matched route req (in_context env property (permissions_of req.permissions_header))

  -- StubAuth, RequireIfMatch and RequirePermission, in the order in which the routers put them.
  unfoldable pub front : Route → HttpRequest → Env → Entry
  unfolding permission_of needs_version permissions_of version_of
  front route req env =
      if is_empty req.property_header
      then turned_away 400
      else authenticated route req env (f.parse_uuid req.property_header)
