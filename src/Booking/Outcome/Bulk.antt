-- ===== src/Booking/Outcome/Bulk.antt =====
-- `insertAllItems` of internal/booking/service_create.go.
use yop_pms.Prelude.{
  ℕ, ◌≡◌, refl, Bool, true, false, ◌&&◌, List, [], ◌∷◌, map, any_where, arith, subst,
}
use yop_pms.Calendar.{date_of, nights_between}
use yop_pms.Status.{ItemStatus}
use yop_pms.Store.{Db, Env, Item, LedgerRow, Result, ok, err}
use yop_pms.Booking.Create.{CreateItemInput, insert_single_item, insert_all_items}
use yop_pms.Booking.Outcome.Sale.{sells, sold_on, Sold, Post, insert_single_item-Sold}

-- The items are one for each input, in their order, and each is sold every night of its stay.
pub all_sold : List CreateItemInput → List Item → List LedgerRow → Bool
all_sold [] [] ledger = true
all_sold (input ∷ inputs) (item ∷ items) ledger =
    sold_on item.id (map date_of (nights_between input.arrival input.departure)) ledger
    && all_sold inputs items ledger
all_sold _ _ ledger = false

sold_on-kept :
    (item : ℕ) (dates : List ℕ) (l l' : List LedgerRow)
    → ((q : LedgerRow → Bool) → any_where q l ≡ true → any_where q l' ≡ true)
    → sold_on item dates l ≡ true
    → sold_on item dates l' ≡ true
unfolding sold_on
sold_on-kept item [] l l' k h = refl
sold_on-kept item (d ∷ dates) l l' k h =
    ground (arith, k (sells item d), sold_on-kept item dates l l' k)

module _ (env : Env) (status : ItemStatus) (reservation : ℕ) where
  one-Sold :
      (input : CreateItemInput) (db db' : Db) (item : Item)
      → insert_single_item env input status reservation db ≡ ok (item, db')
      → Sold input db.ledger item db'
  unfolding Post
  one-Sold input db db' item e =
      subst (Post (Sold input db.ledger)) e
        ((insert_single_item-Sold env db.ledger input status reservation).at db refl)

  record Inserted (inputs : List CreateItemInput) (db : Db) (items : List Item) (db' : Db)
      : Type 0 where
    nights : all_sold inputs items db'.ledger ≡ true
    kept : (q : LedgerRow → Bool) → any_where q db.ledger ≡ true → any_where q db'.ledger ≡ true

  Inserted-after :
      (input : CreateItemInput) (inputs : List CreateItemInput) (db d1 db' : Db) (item : Item)
      (items : List Item)
      → Sold input db.ledger item d1
      → insert_single_item env input status reservation db ≡ ok (item, d1)
      → ((is : List Item) (d2 : Db)
          → insert_all_items env inputs status reservation d1 ≡ ok (is, d2)
          → Inserted inputs d1 is d2)
      → insert_all_items env (input ∷ inputs) status reservation db ≡ ok (items, db')
      → (s : Result (List Item × Db)) → insert_all_items env inputs status reservation d1 ≡ s
      → Inserted (input ∷ inputs) db items db'
  unfolding insert_all_items all_sold
  Inserted-after input inputs db d1 db' item items q f later e (err x) g = ground arith
  Inserted-after input inputs db d1 db' item items q f later e (ok (is, d2)) g =
      let l = later is d2 g in
      let same : (items ≡ item ∷ is) × (db' ≡ d2) = ground arith in
      rw (same.0, same.1)
        (record {
          nights = ground (
            arith,
            l.nights,
            sold_on-kept item.id (map date_of (nights_between input.arrival input.departure))
                d1.ledger d2.ledger l.kept q.nights,
          );
          kept = λ p k. l.kept p (q.kept p k);
        })

  inserted :
      (inputs : List CreateItemInput) (db db' : Db) (items : List Item)
      → insert_all_items env inputs status reservation db ≡ ok (items, db')
      → Inserted inputs db items db'
  unfolding insert_all_items all_sold
  inserted [] db db' items e = record { nights = ground arith; kept = λ q k. ground arith }
  inserted (input ∷ inputs) db db' items e =
      first (λ d is d2 g. inserted inputs d d2 is g)
        (insert_single_item env input status reservation db) refl
    where
      first :
          ((d : Db) (is : List Item) (d2 : Db)
            → insert_all_items env inputs status reservation d ≡ ok (is, d2)
            → Inserted inputs d is d2)
          → (s : Result (Item × Db)) → insert_single_item env input status reservation db ≡ s
          → Inserted (input ∷ inputs) db items db'
      first later (err x) f = ground arith
      first later (ok (item, d1)) f =
          Inserted-after input inputs db d1 db' item items (one-Sold input db d1 item f) f
            (later d1) e (insert_all_items env inputs status reservation d1) refl

-- Where the items of a reservation are all inserted there is one for each input, in their order, and
-- the ledger has a `sold` row of it for every night of its stay.
pub insert_all_items-sold :
    (env : Env) (inputs : List CreateItemInput) (status : ItemStatus) (reservation : ℕ)
    (db db' : Db) (items : List Item)
    → insert_all_items env inputs status reservation db ≡ ok (items, db')
    → all_sold inputs items db'.ledger ≡ true
insert_all_items-sold env inputs status reservation db db' items e =
    (inserted env status reservation inputs db db' items e).nights
