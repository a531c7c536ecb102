-- ===== src/Booking/Inventory.antt =====
-- internal/booking/service_helpers.go: the ledger rows of an item, and the envelope of a
-- reservation.
use yop_pms.Prelude.{
  ℕ, suc, ◌||◌, Option, none, some, List, [], ◌∷◌, map, length, ltb, ◌==◌, if◌then◌else◌,
}
use yop_pms.Calendar.{Stay, date_of, weekday, nights_between}
use yop_pms.Store.{Env, Item, room_not_available, nil_uuid}
use yop_pms.Store.Tx.{Tx, ◌>>=◌, ◌>>◌, return, throw_if}
use yop_pms.Store.Reservations.{find_reservation, update_reservation_metadata}
use yop_pms.Store.Items.{find_items}
use yop_pms.Store.Ledger.{
  conflict_check_on_ledger, select_room_for_auto_pin, bulk_insert_ledger_rows, get_rate, sold_row,
}

-- The prices of the nights: looked up by rate plan, or 10000 pence. A missing rate is an error.
unfoldable pub resolve_rates : Env → ℕ → ℕ → List ℕ → Tx (List ℕ)
resolve_rates env room_type rate_plan [] = return []
resolve_rates env room_type rate_plan (d ∷ dates) = do
  price ← get_rate env (date_of d) room_type rate_plan (weekday d)
  prices ← resolve_rates env room_type rate_plan dates
  return (price ∷ prices)

unfoldable pub rates_of : Env → ℕ → Option ℕ → List ℕ → Tx (List ℕ)
rates_of env room_type none dates = return (map (λ _. 10000) dates)
rates_of env room_type (some plan) dates = resolve_rates env room_type plan dates

-- insertItemLedger: a `sold` row for each night. The prices are looked up and not used.
unfoldable pub insert_item_ledger : Env → ℕ → ℕ → List ℕ → ℕ → Option ℕ → ℕ → Tx (Unit {0})
insert_item_ledger env item reservation [] room rate_plan room_type = return tt
insert_item_ledger env item reservation (d ∷ dates) room rate_plan room_type = do
  rates_of env room_type rate_plan (d ∷ dates)
  bulk_insert_ledger_rows env (sold_row env room reservation item) (map date_of (d ∷ dates))

-- The room of a reactivated item: its own, if no conflict shows, or one that is free.
unfoldable pub reactivation_room : Env → Item → Option ℕ → List ℕ → Tx ℕ
reactivation_room env item (some room) dates = do
  conflicts ← conflict_check_on_ledger env room dates nil_uuid
  throw_if (ltb 0 (length conflicts)) room_not_available
  return room
reactivation_room env item none dates = select_room_for_auto_pin env item.booked_room_type dates

-- reactivateItemInventory, for the nights of the item's stay
unfoldable pub reactivate_nights : Env → Item → List ℕ → Tx (Unit {0})
reactivate_nights env item [] = return tt
reactivate_nights env item (d ∷ dates) = do
  room ← reactivation_room env item item.assigned_room (map date_of (d ∷ dates))
  insert_item_ledger env item.id item.reservation (d ∷ dates) room item.rate_plan
      item.booked_room_type

unfoldable pub reactivate_item_inventory : Env → Item → Tx (Unit {0})
reactivate_item_inventory env item =
    reactivate_nights env item (nights_between item.stay.lower item.stay.upper)

-- The loop of `computeEnvelope` and `recomputeEnvelope`: `i` is the index of the next stay.
unfoldable pub envelope_from : ℕ → Stay → List Stay → Stay
envelope_from i e [] = e
envelope_from i e (s ∷ stays) =
    envelope_from (suc i)
      (record {
        lower = if (i == 0) || ltb s.lower e.lower then s.lower else e.lower;
        upper = if (i == 0) || ltb e.upper s.upper then s.upper else e.upper;
      })
      stays

unfoldable pub envelope_of : List Stay → Stay
unfolding envelope_from
envelope_of stays = envelope_from 0 (record { lower = 0; upper = 0 }) stays

-- recomputeEnvelope: skipped where an end is the zero time, as it is without items.
unfoldable pub recompute_envelope : Env → ℕ → Tx (Unit {0})
recompute_envelope env id = do
  items ← find_items env 1 id
  let e = envelope_of (map (λ i. i.stay) items)
  if (e.lower == 0) || (e.upper == 0) then return tt else do
    res ← find_reservation env 2 id
    update_reservation_metadata env (record {
      id = id;
      version = res.version;
      notes = none;
      primary_guest = res.primary_guest;
      envelope = some e;
    })
    return tt
