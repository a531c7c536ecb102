-- ===== src/Store.antt =====
-- internal/store: the tables, the request that a transaction runs for, and the errors. The tables
-- are those of migrations/00002_inventory_pricing.sql and 00003_reservations.sql.
pub mod Tx
pub mod Reservations
pub mod Items
pub mod Ledger
pub mod Events
pub mod Keeps
use yop_pms.Prelude.{ℕ, String, Bool, true, false, Option, none, some, List, [], ◌∷◌, ◌||◌}
use text.Mathlib.Text.{◌==◌ as str_eq}
use yop_pms.Calendar.{Stay}
use yop_pms.Status.{ReservationStatus, ItemStatus}

-- A UUID is a number, and uuid.Nil is 0.
abbrev pub nil_uuid : ℕ
nil_uuid = 0

pub data Source : Type 0 where
  website internal ota : Source
  other : String → Source

-- operations.reservations
pub record Reservation : Type 0 where
  pub id : ℕ
  pub property : ℕ
  pub primary_guest : ℕ
  pub source : Source
  pub notes : Option String
  pub status : ReservationStatus
  pub envelope : Stay
  pub expires_at : Option ℕ
  pub version : ℕ
  pub created_at : ℕ
  pub updated_at : ℕ
  pub deleted_at : Option ℕ

-- operations.reservation_items
pub record Item : Type 0 where
  pub id : ℕ
  pub property : ℕ
  pub reservation : ℕ
  pub booked_room_type : ℕ
  pub assigned_room : Option ℕ
  pub guest : Option ℕ
  pub rate_plan : Option ℕ
  pub stay : Stay
  pub base_rate_pence : ℕ
  pub adults : ℕ
  pub children : ℕ
  pub status : ItemStatus
  pub version : ℕ
  pub do_not_move : Bool
  pub created_at : ℕ
  pub updated_at : ℕ
  pub deleted_at : Option ℕ

pub data InventoryStatus : Type 0 where
  available sold on_hold maintenance decommissioned : InventoryStatus

-- inventory.room_inventory_ledger; `date` is a day number.
pub record LedgerRow : Type 0 where
  pub property : ℕ
  pub room : ℕ
  pub reservation : Option ℕ
  pub item : Option ℕ
  pub date : ℕ
  pub status : InventoryStatus
  pub deleted_at : Option ℕ

-- inventory.rooms, listed by name, and inventory.room_types
pub record Room : Type 0 where
  pub id : ℕ
  pub property : ℕ
  pub room_type : ℕ

pub record RoomType : Type 0 where
  pub id : ℕ
  pub property : ℕ
  pub min_occupancy : ℕ
  pub max_occupancy : ℕ
  pub deleted_at : Option ℕ

-- pricing.base_rates
pub record BaseRate : Type 0 where
  pub property : ℕ
  pub room_type : ℕ
  pub rate_plan : ℕ
  pub day_of_week : ℕ
  pub base_price_pence : ℕ
  pub deleted_at : Option ℕ

-- identity.guests
pub record Guest : Type 0 where
  pub id : ℕ
  pub property : ℕ
  pub first_name : String
  pub last_name : String
  pub deleted_at : Option ℕ

-- internal.outbox_events, with the confirmation mails that the service enqueues
pub record OutboxEvent : Type 0 where
  pub reservation : ℕ
  pub process_at : ℕ

-- A NOTIFY on `reservation_changes`: the action and the id in its payload.
pub record Notice : Type 0 where
  pub action : String
  pub subject : ℕ

-- The tables. `drawn` counts the UUIDs drawn, and `aborted` says that a statement of the running
-- transaction has failed, after which PostgreSQL refuses every other one.
pub record Db : Type 0 where
  pub reservations : List Reservation
  pub items : List Item
  pub ledger : List LedgerRow
  pub rooms : List Room
  pub room_types : List RoomType
  pub base_rates : List BaseRate
  pub guests : List Guest
  pub outbox : List OutboxEvent
  pub notices : List Notice
  pub drawn : ℕ
  pub aborted : Bool

-- The statements that a transaction issues.
pub data Query : Type 0 where
  begin commit set_property set_user : Query
  select_reservations get_reservation get_items get_item create_reservation create_item : Query
  update_status update_item update_metadata cancel_items reactivate_items archive_items : Query
  conflict_check auto_pin insert_ledger update_ledger_room : Query
  delete_by_item delete_from_date delete_by_reservation : Query
  get_occupancy get_base_rate get_timezone create_guest get_guest notify enqueue : Query

-- The classes of PostgreSQL error codes that `MapPostgresError` tells apart.
pub data PgError : Type 0 where
  unique_violation foreign_key_violation check_violation exclusion_violation : PgError
  raise_exception unexpected : PgError

-- The error codes of apierror.go and booking/errors.go that the service returns.
pub data ApiError : Type 0 where
  not_found bad_request conflict internal_error unprocessable : ApiError
  no_property_context version_mismatch invalid_transition unassigned_items : ApiError
  invalid_dates source_deferred guest_not_attached room_not_available : ApiError
  do_not_move missing_permission terminal : ApiError

-- An `error`: an API error (wrapped or not), pgx.ErrNoRows, a PostgreSQL error, or one that
-- `fmt.Errorf` makes anew.
pub data Err : Type 0 where
  api : ApiError → Err
  no_rows : Err
  pg : PgError → Err
  plain : Err

pub data Result {ℓ} (A : Type ℓ) : Type ℓ where
  ok : A → Result A
  err : Err → Result A

-- The request: what its context holds, the clock, the present day's midnight in the property's time
-- zone (none if the zone's name is unknown), the UUIDs that the database draws, the rooms that
-- other transactions hold locked, and which statements the database refuses for a reason that the tables do not show (the connection, a
-- serialisation failure, a foreign key, a trigger). The number tells the calls of one statement
-- apart.
pub record Env : Type 0 where
  pub property : ℕ
  pub user : ℕ
  pub permissions : List String
  pub if_match : ℕ
  pub now : ℕ
  pub midnight_today : Option ℕ
  pub new_id : ℕ → ℕ
  pub locked : ℕ → Bool
  pub fault : Query → ℕ → Option PgError

-- HasPermission
unfoldable pub holds : List String → String → Bool
holds [] perm = false
holds (p ∷ ps) perm = str_eq p perm || holds ps perm

unfoldable pub has_permission : Env → String → Bool
has_permission env perm = holds env.permissions perm
