-- ===== src/Store/Ledger.antt =====
-- The statements on inventory.room_inventory_ledger and on what the booking of a room reads
-- (internal/store/reservation_items.sql.go, reservation_rates.sql.go), with the unique constraint
-- on the room and the date.
use yop_pms.Prelude.{
  ℕ, Bool, true, false, not, ◌&&◌, Option, none, some, List, [], ◌∷◌, ltb, leb, ◌==◌, if◌then◌else◌,
  is_none, find_where, update_where, delete_where, any_where, select_where, count_where,
}
use yop_pms.Store.{
  Env, LedgerRow, InventoryStatus, available, sold, RoomType, ok, err, no_rows, pg,
  unique_violation, conflict_check, auto_pin, insert_ledger, update_ledger_room, delete_by_item,
  delete_from_date, delete_by_reservation, get_occupancy, get_base_rate,
}
use yop_pms.Store.Tx.{Tx, statement}
use yop_pms.Store.Reservations.{visible}

-- status IN ('sold', 'on_hold', 'maintenance', 'decommissioned')
abbrev pub blocks : InventoryStatus → Bool
blocks available = false
blocks _ = true

-- A nullable column compared with a value: a null is equal to nothing, and unequal to nothing.
abbrev pub column_is : Option ℕ → ℕ → Bool
column_is none a = false
column_is (some b) a = b == a

abbrev pub column_is_not : Option ℕ → ℕ → Bool
column_is_not none a = false
column_is_not (some b) a = not (b == a)

abbrev pub on_dates : List ℕ → ℕ → Bool
on_dates dates d = any_where (λ e. e == d) dates

-- ConflictCheckOnLedger, for the property of the request. The Go parameter `ExcludeItemID` is no
-- pointer, so `@exclude_item_id IS NULL` is never true. The callers count the dates, and their
-- order is left out.
abbrev pub is_conflict : Env → ℕ → List ℕ → ℕ → LedgerRow → Bool
is_conflict env room dates exclude r =
    r.room == room
    && on_dates dates r.date
    && visible env r.property
    && blocks r.status
    && is_none r.deleted_at
    && column_is_not r.item exclude

unfoldable pub conflict_check_on_ledger : Env → ℕ → List ℕ → ℕ → Tx (List LedgerRow)
conflict_check_on_ledger env room dates exclude =
    statement env conflict_check 0
      λ db. ok (select_where (is_conflict env room dates exclude) db.ledger, db)

-- SelectRoomForAutoPin: the first room by name that no row blocks on the dates, and that no other
-- transaction holds.
abbrev pub is_taken : ℕ → List ℕ → LedgerRow → Bool
is_taken room dates r =
    r.room == room && on_dates dates r.date && blocks r.status && is_none r.deleted_at

unfoldable pub select_room_for_auto_pin : Env → ℕ → List ℕ → Tx ℕ
select_room_for_auto_pin env room_type dates = statement env auto_pin 0 λ db.
    elim (find_where
      (λ r.
        visible env r.property
        && r.room_type == room_type
        && not (any_where (is_taken r.id dates) db.ledger)
        && not (env.locked r.id))
      db.rooms) [ none ↦ err no_rows | some r ↦ ok (r.id, db) ]

-- UNIQUE (room_id, calendar_date)
abbrev pub same_slot : ℕ → ℕ → LedgerRow → Bool
same_slot room date r = r.room == room && r.date == date

-- BulkInsertLedgerRows, for rows that differ in their date alone: all of them, or none.
unfoldable pub insert_rows : (ℕ → LedgerRow) → List ℕ → List LedgerRow → Option (List LedgerRow)
insert_rows row [] ledger = some ledger
insert_rows row (d ∷ dates) ledger =
    let rest = insert_rows row dates (row d ∷ ledger) in
    if any_where (same_slot (row d).room d) ledger then none else rest

abbrev pub sold_row : Env → ℕ → ℕ → ℕ → ℕ → LedgerRow
sold_row env room reservation item date = record {
  property = env.property;
  room = room;
  reservation = some reservation;
  item = some item;
  date = date;
  status = sold;
  deleted_at = none;
}

unfoldable pub bulk_insert_ledger_rows : Env → (ℕ → LedgerRow) → List ℕ → Tx (Unit {0})
bulk_insert_ledger_rows env row dates = statement env insert_ledger 0 λ db.
    elim (insert_rows row dates db.ledger) [
      | none ↦ err (pg unique_violation)
      | some ledger ↦ ok (tt, record db { ledger = ledger })
    ]

-- WHERE reservation_item_id = @reservation_item_id AND property_id = @property_id
abbrev pub is_row_of_item : Env → ℕ → LedgerRow → Bool
is_row_of_item env id r = column_is r.item id && visible env r.property

abbrev pub in_room : ℕ → LedgerRow → LedgerRow
in_room room r = record r { room = room }

-- UpdateLedgerRowRoom
unfoldable pub update_ledger_row_room : Env → ℕ → ℕ → Tx (Unit {0})
update_ledger_row_room env id room = statement env update_ledger_room 0 λ db.
    let ledger = update_where (is_row_of_item env id) (in_room room) db.ledger in
    if any_where
      (λ r. is_row_of_item env id r && ltb 1 (count_where (same_slot room r.date) ledger)) db.ledger
    then err (pg unique_violation)
    else ok (tt, record db { ledger = ledger })

-- DeleteLedgerRowsByItem
unfoldable pub delete_ledger_rows_by_item : Env → ℕ → Tx (Unit {0})
delete_ledger_rows_by_item env id =
    statement env delete_by_item 0
      λ db. ok (tt, record db { ledger = delete_where (is_row_of_item env id) db.ledger })

-- DeleteLedgerRowsByItemFromDate: … AND calendar_date >= @from_date
abbrev pub is_row_from : Env → ℕ → ℕ → LedgerRow → Bool
is_row_from env id from r = is_row_of_item env id r && leb from r.date

unfoldable pub delete_ledger_rows_by_item_from_date : Env → ℕ → ℕ → Tx (Unit {0})
delete_ledger_rows_by_item_from_date env id from =
    statement env delete_from_date 0
      λ db. ok (tt, record db { ledger = delete_where (is_row_from env id from) db.ledger })

-- DeleteLedgerForReservation
abbrev pub is_row_of_reservation : Env → ℕ → LedgerRow → Bool
is_row_of_reservation env id r = column_is r.reservation id && visible env r.property

unfoldable pub delete_ledger_for_reservation : Env → ℕ → Tx (Unit {0})
delete_ledger_for_reservation env id =
    statement env delete_by_reservation 0
      λ db. ok (tt, record db { ledger = delete_where (is_row_of_reservation env id) db.ledger })

-- GetRoomTypeOccupancy
unfoldable pub get_room_type_occupancy : Env → ℕ → Tx RoomType
get_room_type_occupancy env id = statement env get_occupancy 0 λ db.
    elim (find_where (λ t. t.id == id && visible env t.property && is_none t.deleted_at)
      db.room_types) [ none ↦ err no_rows | some t ↦ ok (t, db) ]

-- GetBaseRate; the number is the date that it is asked for.
unfoldable pub get_rate : Env → ℕ → ℕ → ℕ → ℕ → Tx ℕ
get_rate env date room_type rate_plan weekday = statement env get_base_rate date λ db.
    elim (find_where
      (λ b.
        visible env b.property
        && b.room_type == room_type
        && b.rate_plan == rate_plan
        && b.day_of_week == weekday
        && is_none b.deleted_at)
      db.base_rates) [ none ↦ err no_rows | some b ↦ ok (b.base_price_pence, db) ]
