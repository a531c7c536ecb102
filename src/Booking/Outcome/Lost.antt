-- ===== src/Booking/Outcome/Lost.antt =====
-- The change of dates of `UpdateItem` (internal/booking/service_update.go), for an arrival that moves
-- to a later night of the stay.
use yop_pms.Prelude.{
  ℕ, zero, suc, ◌+◌, ◌-◌, ◌*◌, ◌≤◌, ◌<◌, ◌≡◌, refl, subst, false, not, List, [], ◌∷◌, ◌==◌, Option,
  any_where, select_where, any-delete, arith,
}
use yop_pms.Calendar.{day, date_of, in_set, nights_between, removed_dates, added_dates}
use yop_pms.Calendar.Nights.{days_from, nights_between-days_from, in_set-nights}
use yop_pms.Store.{Db, Env, Item, LedgerRow, Result, ok, err}
use yop_pms.Store.Tx.{continue}
use yop_pms.Store.Tx.Keeps.{Keeps, After, continue-After, keeps_rules}
use yop_pms.Store.Reservations.{find_reservation, update_reservation_metadata}
use yop_pms.Store.Items.{find_items}
use yop_pms.Store.Ledger.{is_row_from, delete_ledger_rows_by_item_from_date}
use yop_pms.Booking.Inventory.{recompute_envelope}
use yop_pms.Booking.Create.{CreateItemInput}
use yop_pms.Booking.Update.Edit.{move_ledger, change_dates}

-- The dates of the new stay are all in the old one.
none_added :
    (a d a' d' first n : ℕ)
    → date_of a ≤ first
    → first + n ≤ date_of d
    → select_where (λ x. not (in_set x (nights_between a d))) (days_from first n) ≡ []
unfolding select_where days_from
none_added a d a' d' first zero h k = refl
none_added a d a' d' first (suc n) h k = ground (
  arith,
  in_set-nights (first * day) a d,
  none_added a d a' d' (suc first) n (omega arith) (omega arith),
)

added-later :
    (a d a' d' : ℕ)
    → date_of a ≤ date_of a'
    → date_of d' ≤ date_of d
    → date_of a' ≤ date_of d'
    → added_dates (nights_between a d) (nights_between a' d') ≡ []
unfolding added_dates
added-later a d a' d' h k l =
    rw (nights_between-days_from a' d')
      (none_added a d a' d' (date_of a') (date_of d' - date_of a') h (omega arith))

-- The first night of the old stay is the first to fall away.
removed-first :
    (a d a' d' n : ℕ)
    → date_of a < date_of a'
    → date_of d - date_of a ≡ suc n
    → removed_dates (nights_between a d) (nights_between a' d')
      ≡ (date_of a * day)
        ∷ select_where (λ x. not (in_set x (nights_between a' d'))) (days_from (suc (date_of a)) n)
unfolding removed_dates select_where days_from
removed-first a d a' d' n h e =
    rw (nights_between-days_from a d, e) (ground (arith, in_set-nights (date_of a * day) a' d'))

module _ (env : Env) (item : Item) (from : ℕ) where
  abbrev Lost : Db → Type 0
  Lost db = any_where (is_row_from env item.id from) db.ledger ≡ false

  reads_items : (k id : ℕ) → Keeps Lost (find_items env k id)
  unfolding find_items
  reads_items k id = record { at = λ db h. ground arith }

  reads_reservation : (k id : ℕ) → Keeps Lost (find_reservation env k id)
  unfolding find_reservation
  reads_reservation k id = record { at = λ db h. ground arith }

  writes_metadata :
      (p : yop_pms.Store.Reservations.UpdateMetadataParams)
      → Keeps Lost (update_reservation_metadata env p)
  unfolding update_reservation_metadata
  writes_metadata p = record { at = λ db h. ground arith }

  envelope-Keeps : (id : ℕ) → Keeps Lost (recompute_envelope env id)
  unfolding recompute_envelope
  envelope-Keeps id = search (keeps_rules, reads_items, reads_reservation, writes_metadata) depth 14

  deleted-Keeps : (db : Db) → After Lost (delete_ledger_rows_by_item_from_date env item.id from db)
  unfolding delete_ledger_rows_by_item_from_date
  deleted-Keeps db = ground (
    arith,
    any-delete (is_row_from env item.id from) (is_row_from env item.id from) db.ledger λ r e. e,
  )

  moved-After :
      (room : ℕ) (plan : Option ℕ) (nights removed added rest : List ℕ) (r : ℕ) (db : Db)
      → removed ≡ r ∷ rest
      → added ≡ []
      → date_of r ≡ from
      → After Lost (
          continue
            (move_ledger env item room plan nights removed added db)
            λ _. recompute_envelope env item.reservation)
  unfolding move_ledger
  moved-After room plan nights removed added rest r db e f g =
      rw (e, f, g)
        (continue-After (delete_ledger_rows_by_item_from_date env item.id from db)
          (λ _. recompute_envelope env item.reservation) (deleted-Keeps db)
          λ _. envelope-Keeps item.reservation)

later_arrival-After :
    (env : Env) (item : Item) (input : CreateItemInput) (db : Db)
    → date_of item.stay.lower < date_of input.arrival
    → date_of input.arrival ≤ date_of input.departure
    → date_of input.departure ≤ date_of item.stay.upper
    → (n : ℕ) → date_of item.stay.upper - date_of item.stay.lower ≡ suc n
    → After (Lost env item (date_of item.stay.lower)) (change_dates env item input db)
unfolding change_dates
later_arrival-After env item input db h k l n e = rw changed (
    moved-After env item (date_of item.stay.lower) _ _ _ _ _ _ (date_of item.stay.lower * day) db
      (removed-first item.stay.lower item.stay.upper input.arrival input.departure n h e)
      (added-later item.stay.lower item.stay.upper input.arrival input.departure (omega arith) l k)
      (omega arith))
  where
    changed : (input.arrival == item.stay.lower) ≡ false
    changed = ground arith

-- Where the arrival of an item moves to a later night of its stay, and the departure to no later
-- one, the change of its dates leaves the item no ledger row from the first night of the old stay on:
-- the nights that the new stay keeps are gone with those that it gives up.
pub change_dates-loses :
    (env : Env) (item : Item) (input : CreateItemInput) (db db' : Db) (u : Unit {0})
    → date_of item.stay.lower < date_of input.arrival
    → date_of input.arrival ≤ date_of input.departure
    → date_of input.departure ≤ date_of item.stay.upper
    → change_dates env item input db ≡ ok (u, db')
    → any_where (is_row_from env item.id (date_of item.stay.lower)) db'.ledger ≡ false
change_dates-loses env item input db db' u h k l e =
    subst (After (Lost env item (date_of item.stay.lower))) e (
      later_arrival-After env item input db h k l
        (date_of item.stay.upper - date_of item.stay.lower - 1) (omega arith))
