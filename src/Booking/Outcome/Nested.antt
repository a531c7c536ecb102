-- ===== src/Booking/Outcome/Nested.antt =====
-- `UpdateItem` of internal/booking/service_update.go, where the room type or the rate plan changes: a request
-- inside a request.
use yop_pms.Prelude.{ℕ, ◌≡◌, true, false, none, ◌==◌, arith}
use yop_pms.Store.{Db, Env, Item, ok, nil_uuid}
use yop_pms.Store.Tx.{Reply, finish, opening}
use yop_pms.Store.Items.{find_item}
use yop_pms.Booking.Create.{CreateItemInput}
use yop_pms.Booking.Update.Change.{update_item_room_type}
use yop_pms.Booking.Update.Edit.{changes_room_type, after_inner, update_found, update_item}

after_inner-items :
    (env : Env) (reservation : ℕ) (seen : Db) (inner : Reply Item)
    → (after_inner env reservation seen inner).db.items ≡ inner.db.items
unfolding after_inner finish
after_inner-items env reservation seen inner = ground arith

-- Where the request opens, finds its item and changes the room type, the items that it leaves are
-- those that the inner request for the room type leaves, whether the outer one then succeeds or
-- fails: the two do not commit together.
pub update_item-nested :
    (env : Env) (id : ℕ) (input : CreateItemInput) (db : Db) (item : Item)
    → (env.property == nil_uuid) ≡ false
    → opening env ≡ none
    → find_item env id db ≡ ok (item, db)
    → changes_room_type item input ≡ true
    → (update_item env id input db).db.items
      ≡ (update_item_room_type env id input.room_type false "" db).db.items
unfolding update_item update_found
update_item-nested env id input db item p o f c =
    rw (p, o, f, c)
      (after_inner-items env item.reservation db
        (update_item_room_type env id input.room_type false "" db))
