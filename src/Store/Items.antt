-- ===== src/Store/Items.antt =====
-- The statements on operations.reservation_items (internal/store/reservation_crud.sql.go,
-- reservation_items.sql.go and the soft delete of internal/booking/workers.go), with the checks and
-- the exclusion constraint of the table. The list is kept in the order of creation.
use yop_pms.Prelude.{
  ℕ, ◌+◌, Bool, false, not, ◌&&◌, Option, none, some, List, [], ◌∷◌, ◌++◌, ltb, leb, ◌==◌,
  if◌then◌else◌, is_none, coalesce, or_else, find_where, update_where, any_where, select_where,
}
use yop_pms.Calendar.{Stay}
use yop_pms.Status.{ItemStatus, booked, same_item_status, is_terminal_item_status}
use yop_pms.Store.{
  Env, Item, ok, err, no_rows, pg, check_violation, exclusion_violation, get_item, get_items,
  update_item, create_item, cancel_items, reactivate_items, archive_items,
}
use yop_pms.Store.Tx.{Tx, statement}
use yop_pms.Store.Reservations.{visible}

-- WHERE id = @id AND deleted_at IS NULL
abbrev pub is_live_item : Env → ℕ → Item → Bool
is_live_item env id i = i.id == id && is_none i.deleted_at && visible env i.property

-- GetReservationItem
unfoldable pub find_item : Env → ℕ → Tx Item
find_item env id = statement env get_item 0 λ db. elim (find_where (is_live_item env id) db.items) [
  | none ↦ err no_rows
  | some i ↦ ok (i, db)
]

-- WHERE reservation_id = @reservation_id AND property_id = @property_id AND deleted_at IS NULL
abbrev pub is_item_of : Env → ℕ → Item → Bool
is_item_of env id i = i.reservation == id && is_none i.deleted_at && visible env i.property

-- GetReservationItems, for the property of the request.
unfoldable pub find_items : Env → ℕ → ℕ → Tx (List Item)
find_items env k id =
    statement env get_items k λ db. ok (select_where (is_item_of env id) db.items, db)

abbrev same_room : Option ℕ → Option ℕ → Bool
same_room (some a) (some b) = a == b
same_room _ _ = false

-- EXCLUDE USING GIST (assigned_room_id WITH =, stay_period WITH &&) WHERE (deleted_at IS NULL …)
unfoldable pub clashes : Item → Item → Bool
clashes i j =
    not (i.id == j.id)
    && is_none i.deleted_at
    && is_none j.deleted_at
    && same_room i.assigned_room j.assigned_room
    && ltb i.stay.lower j.stay.upper
    && ltb j.stay.lower i.stay.upper

-- CHECK (lower(stay_period) < upper(stay_period)), CHECK (adults_count >= 1)
abbrev pub admits : Item → Bool
admits i = ltb i.stay.lower i.stay.upper && leb 1 i.adults

pub record UpdateItemParams : Type 0 where
  pub id : ℕ
  pub version : ℕ
  pub booked_room_type : Option ℕ
  pub assigned_room : Option ℕ
  pub stay : Stay
  pub rate_plan : Option ℕ
  pub adults : ℕ
  pub children : ℕ
  pub status : ItemStatus

abbrev pub is_item_version : Env → ℕ → ℕ → Item → Bool
is_item_version env id version i = i.id == id && i.version == version && visible env i.property

-- SET each column = COALESCE(its parameter, itself); a null parameter keeps the column.
abbrev pub with_params : Env → UpdateItemParams → Item → Item
with_params env p i = record i {
  booked_room_type = coalesce p.booked_room_type i.booked_room_type;
  assigned_room = or_else p.assigned_room i.assigned_room;
  stay = p.stay;
  rate_plan = or_else p.rate_plan i.rate_plan;
  adults = p.adults;
  children = p.children;
  status = p.status;
  version = i.version + 1;
  updated_at = env.now;
}

-- UpdateReservationItem; the number tells the calls in a loop apart.
unfoldable pub update_reservation_item : Env → ℕ → UpdateItemParams → Tx Item
update_reservation_item env k p = statement env update_item k λ db.
    elim (find_where (is_item_version env p.id p.version) db.items) [
      | none ↦ err no_rows
      | some i ↦
          if not (admits (with_params env p i))
          then err (pg check_violation)
          else if any_where (clashes (with_params env p i)) db.items
          then err (pg exclusion_violation)
          else ok (
            with_params env p i,
            record db {
              items =
                  update_where (is_item_version env p.id p.version) (with_params env p) db.items;
            },
          )
    ]

-- CreateReservationItem
unfoldable pub insert_item : Env → (ℕ → Item) → Tx Item
insert_item env new_item = statement env create_item 0 λ db.
    let row = new_item (env.new_id db.drawn) in
    if not (admits row)
    then err (pg check_violation)
    else if any_where (clashes row) db.items
    then err (pg exclusion_violation)
    else ok (row, record db { items = db.items ++ row ∷ []; drawn = db.drawn + 1 })

-- CancelReservationItems: status NOT IN ('checked_out', 'cancelled', 'archived'), deleted or not.
abbrev pub is_cancellable : Env → ℕ → Item → Bool
is_cancellable env id i =
    i.reservation == id && visible env i.property && not (is_terminal_item_status i.status)

abbrev pub as_cancelled : Env → Item → Item
as_cancelled env i = record i {
  status = ItemStatus.cancelled;
  deleted_at = some env.now;
  version = i.version + 1;
}

unfoldable pub cancel_reservation_items : Env → ℕ → Tx (Unit {0})
cancel_reservation_items env id = statement env cancel_items 0 λ db.
    ok (tt, record db { items = update_where (is_cancellable env id) (as_cancelled env) db.items })

-- ReactivateReservationItems: status = 'cancelled' AND deleted_at IS NOT NULL.
abbrev pub is_reactivable : Env → ℕ → Item → Bool
is_reactivable env id i =
    i.reservation == id
    && visible env i.property
    && same_item_status i.status ItemStatus.cancelled
    && not (is_none i.deleted_at)

abbrev pub as_booked : Item → Item
as_booked i = record i { status = booked; deleted_at = none; version = i.version + 1 }

unfoldable pub reactivate_reservation_items : Env → ℕ → Tx (Unit {0})
reactivate_reservation_items env id = statement env reactivate_items 0 λ db.
    let items = update_where (is_reactivable env id) as_booked db.items in
    if any_where (λ i. is_reactivable env id i && any_where (clashes (as_booked i)) items) db.items
    then err (pg exclusion_violation)
    else ok (tt, record db { items = items })

-- The soft delete of `archiveReservationTx`.
abbrev pub as_deleted : Env → Item → Item
as_deleted env i = record i { deleted_at = some env.now; version = i.version + 1 }

unfoldable pub archive_reservation_items : Env → ℕ → Tx (Unit {0})
archive_reservation_items env id =
    statement env archive_items 0 λ db.
      ok (tt, record db { items = update_where (is_item_of env id) (as_deleted env) db.items })
