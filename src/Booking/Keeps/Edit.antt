-- ===== src/Booking/Keeps/Edit.antt =====
-- `UpdateItem` of Booking/Update/Edit.antt.
use yop_pms.Prelude.{
  ℕ, Bool, true, false, Option, List, [], ◌∷◌, Bool-cases, inl, inr, if◌then◌else◌, coalesce,
  Option-cases, ◌==◌,
}
use yop_pms.Store.{Db, Env, Item, Result, ok, err, nil_uuid, not_found}
use yop_pms.Store.Tx.{Reply, opening, ◌no_rows_as◌, finish}
use yop_pms.Store.Tx.Keeps.{Keeps, After, keeps_rules, finish_keeps}
use yop_pms.Store.Items.{find_item}
use yop_pms.Store.Keeps.Interface.{KeptByStatements}
use yop_pms.Booking.Create.{CreateItemInput}
use yop_pms.Booking.Update.Change.{
  update_item_room_type_tx, update_item_rate_plan_tx, update_item_room_type, update_item_rate_plan,
}
use yop_pms.Booking.Update.Edit.{
  fetch_and_expand, move_ledger, change_dates, change_room, edit_item_tx, onto, after_inner,
  update_found, update_item, changes_room_type, changes_rate_plan,
}
use yop_pms.Booking.Keeps.Inventory.{insert_item_ledger-Keeps, recompute_envelope-Keeps}
use yop_pms.Booking.Keeps.Create.{expand_include-Keeps}
use yop_pms.Booking.Keeps.Update.{
  request-keeps, update_item_room_type-Keeps, update_item_rate_plan-Keeps,
}

reply_if :
    {A : Type 0} (P : Db → Type 0) (b : Bool) (m n : Reply A)
    → P m.db
    → P n.db
    → P (if b then m else n).db
reply_if P true m n h k = h
reply_if P false m n h k = k

module _ {env : Env} {P : Db → Type 0} (k : KeptByStatements env P) where
  fetch_and_expand-Keeps : (id : ℕ) → Keeps P (fetch_and_expand env id)
  unfolding fetch_and_expand
  fetch_and_expand-Keeps id =
      search (keeps_rules, k.find_reservation_keeps, expand_include-Keeps k) depth 8

  move_ledger-Keeps :
      (item : Item) (room : ℕ) (plan : Option ℕ) (nights removed added : List ℕ)
      → Keeps P (move_ledger env item room plan nights removed added)
  unfolding move_ledger
  move_ledger-Keeps item room plan nights [] [] = search keeps_rules
  move_ledger-Keeps item room plan nights [] (a ∷ added) =
      insert_item_ledger-Keeps k item.id item.reservation (a ∷ added) room plan
        item.booked_room_type
  move_ledger-Keeps item room plan nights (r ∷ removed) [] =
      search (keeps_rules, k.delete_from_date_keeps)
  move_ledger-Keeps item room plan nights (r ∷ removed) (a ∷ added) =
      search (keeps_rules, k.delete_by_item_keeps, insert_item_ledger-Keeps k) depth 8

  change_dates-Keeps :
      (item : Item) (input : CreateItemInput) → Keeps P (change_dates env item input)
  unfolding change_dates
  change_dates-Keeps item input =
      search (keeps_rules, move_ledger-Keeps, recompute_envelope-Keeps k) depth 8

  change_room-Keeps : (item : Item) (input : CreateItemInput) → Keeps P (change_room env item input)
  unfolding change_room
  change_room-Keeps item input = search (keeps_rules, k.update_ledger_room_keeps) depth 8

  edit_item-Keeps : (item : Item) (input : CreateItemInput) → Keeps P (edit_item_tx env item input)
  unfolding edit_item_tx
  edit_item-Keeps item input =
      search
        (
          keeps_rules, change_dates-Keeps, change_room-Keeps, k.update_item_keeps, k.notify_keeps,
          fetch_and_expand-Keeps,
        )
        depth 20

  onto_keeps : {A : Type 0} (db : Db) (r : Result (A × Db)) → P db → After P (onto db r)
  onto_keeps db (ok (a, seen)) h = k.blind db seen.aborted h
  onto_keeps db (err e) h = tt

  room_type_db :
      (id room_type : ℕ) (db : Db)
      → P db
      → P (update_item_room_type env id room_type false "" db).db
  unfolding update_item_room_type
  room_type_db id room_type db h =
      request-keeps P env (update_item_room_type_tx env id room_type false "") db
        (update_item_room_type-Keeps k id room_type false "") h

  rate_plan_db : (id plan : ℕ) (db : Db) → P db → P (update_item_rate_plan env id plan db).db
  unfolding update_item_rate_plan
  rate_plan_db id plan db h =
      request-keeps P env (update_item_rate_plan_tx env id plan) db
        (update_item_rate_plan-Keeps k id plan) h

  after_inner_keeps :
      (reservation : ℕ) (seen : Db) (inner : Reply Item)
      → P inner.db
      → P (after_inner env reservation seen inner).db
  unfolding after_inner
  after_inner_keeps reservation seen inner h = go inner.result
    where
      go :
          (r : Result Item)
          → P (after_inner env reservation seen (record { result = r; db = inner.db })).db
      go (err e) = h
      go (ok item) =
          finish_keeps P env inner.db (onto inner.db (fetch_and_expand env reservation seen)) h
            (onto_keeps inner.db (fetch_and_expand env reservation seen) h)

  update_found_keeps :
      (id : ℕ) (input : CreateItemInput) (db : Db) (r : Result (Item × Db))
      → P db
      → P (update_found env id input db r).db
  unfolding update_found
  update_found_keeps id input db (err e) h = h
  update_found_keeps id input db (ok (item, seen)) h =
      reply_if P (changes_room_type item input)
        (after_inner env item.reservation db
          (update_item_room_type env id input.room_type false "" db))
        (if changes_rate_plan item input.rate_plan
          then after_inner env item.reservation db
              (update_item_rate_plan env id (coalesce input.rate_plan nil_uuid) db)
          else finish env db (edit_item_tx env item input db))
        (after_inner_keeps item.reservation db
          (update_item_room_type env id input.room_type false "" db)
          (room_type_db id input.room_type db h))
        (reply_if P (changes_rate_plan item input.rate_plan)
          (after_inner env item.reservation db
            (update_item_rate_plan env id (coalesce input.rate_plan nil_uuid) db))
          (finish env db (edit_item_tx env item input db))
          (after_inner_keeps item.reservation db
            (update_item_rate_plan env id (coalesce input.rate_plan nil_uuid) db)
            (rate_plan_db id (coalesce input.rate_plan nil_uuid) db h))
          (finish_keeps P env db (edit_item_tx env item input db) h
            ((edit_item-Keeps item input).at db h)))

  -- UpdateItem keeps it, through its inner request too.
  pub update_item_keeps :
      (id : ℕ) (input : CreateItemInput) (db : Db) → P db → P (update_item env id input db).db
  unfolding update_item
  update_item_keeps id input db h = elim (Bool-cases (env.property == nil_uuid)) [
    | inl b ↦ rw (b, update_item) h
    | inr b ↦ elim (Option-cases (opening env)) [
      | inl e ↦
          rw (b, e, update_item)
            (update_found_keeps id input db ((find_item env id no_rows_as not_found) db) h)
      | inr (x, e) ↦ rw (b, e, update_item) h
    ]
  ]
