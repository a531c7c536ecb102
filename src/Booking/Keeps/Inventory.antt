-- ===== src/Booking/Keeps/Inventory.antt =====
-- The chains of Booking/Inventory.antt.
use yop_pms.Prelude.{ℕ, Option, none, some, List, [], ◌∷◌}
use yop_pms.Calendar.{date_of, weekday, nights_between}
use yop_pms.Store.{Db, Env, Item}
use yop_pms.Store.Tx.Keeps.{Keeps, keeps_rules, Keeps-bind, Keeps-return}
use yop_pms.Store.Keeps.Interface.{KeptByStatements}
use yop_pms.Booking.Inventory.{
  resolve_rates, rates_of, insert_item_ledger, reactivation_room, reactivate_nights,
  reactivate_item_inventory, recompute_envelope,
}

module _ {env : Env} {P : Db → Type 0} (k : KeptByStatements env P) where
  resolve_rates-Keeps :
      (room_type plan : ℕ) (dates : List ℕ) → Keeps P (resolve_rates env room_type plan dates)
  unfolding resolve_rates
  resolve_rates-Keeps room_type plan [] = search keeps_rules
  resolve_rates-Keeps room_type plan (d ∷ dates) =
      Keeps-bind _ _ (k.rate_keeps (date_of d) room_type plan (weekday d))
        λ price. Keeps-bind _ _ (resolve_rates-Keeps room_type plan dates) λ prices. Keeps-return _

  pub rates_of-Keeps :
      (room_type : ℕ) (plan : Option ℕ) (dates : List ℕ)
      → Keeps P (rates_of env room_type plan dates)
  unfolding rates_of
  rates_of-Keeps room_type none dates = search keeps_rules
  rates_of-Keeps room_type (some plan) dates = resolve_rates-Keeps room_type plan dates

  pub insert_item_ledger-Keeps :
      (item reservation : ℕ) (dates : List ℕ) (room : ℕ) (plan : Option ℕ) (room_type : ℕ)
      → Keeps P (insert_item_ledger env item reservation dates room plan room_type)
  unfolding insert_item_ledger
  insert_item_ledger-Keeps item reservation [] room plan room_type = search keeps_rules
  insert_item_ledger-Keeps item reservation (d ∷ dates) room plan room_type =
      search (keeps_rules, rates_of-Keeps, k.bulk_insert_keeps) depth 10

  reactivation_room-Keeps :
      (item : Item) (room : Option ℕ) (dates : List ℕ)
      → Keeps P (reactivation_room env item room dates)
  unfolding reactivation_room
  reactivation_room-Keeps item none dates = k.auto_pin_keeps item.booked_room_type dates
  reactivation_room-Keeps item (some room) dates =
      search (keeps_rules, k.conflict_check_keeps) depth 10

  reactivate_nights-Keeps :
      (item : Item) (dates : List ℕ) → Keeps P (reactivate_nights env item dates)
  unfolding reactivate_nights
  reactivate_nights-Keeps item [] = search keeps_rules
  reactivate_nights-Keeps item (d ∷ dates) =
      search (keeps_rules, reactivation_room-Keeps, insert_item_ledger-Keeps) depth 10

  pub reactivate_item_inventory-Keeps : (item : Item) → Keeps P (reactivate_item_inventory env item)
  unfolding reactivate_item_inventory
  reactivate_item_inventory-Keeps item =
      reactivate_nights-Keeps item (nights_between item.stay.lower item.stay.upper)

  pub recompute_envelope-Keeps : (id : ℕ) → Keeps P (recompute_envelope env id)
  unfolding recompute_envelope
  recompute_envelope-Keeps id =
      search (keeps_rules, k.find_items_keeps, k.find_reservation_keeps, k.update_metadata_keeps)
        depth 14
