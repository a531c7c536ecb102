-- ===== src/Booking/Outcome/Sale.antt =====
-- The sale of the nights of one item: `insertSingleItem` of internal/booking/service_create.go.
use yop_pms.Prelude.{
  ℕ, ◌≡◌, refl, Bool, true, false, ◌&&◌, Option, none, some, List, [], ◌∷◌, map, ◌==◌, any_where,
  arith,
}
use yop_pms.Calendar.{date_of, weekday, nights_between}
use yop_pms.Status.{ItemStatus}
use yop_pms.Store.{Db, Env, Item, LedgerRow, Result, ok, err, sold, InventoryStatus}
use yop_pms.Store.Tx.{Tx, continue, ◌>>=◌, ◌>>◌, return}
use yop_pms.Store.Tx.Keeps.{After, Keeps, Keeps-bind, Keeps-return, Keeps-fail_if, keeps_rules}
use yop_pms.Store.Items.{insert_item}
use yop_pms.Store.Ledger.{
  insert_rows, sold_row, column_is, get_rate, get_room_type_occupancy, bulk_insert_ledger_rows,
  select_room_for_auto_pin,
}
use yop_pms.Booking.Inventory.{rates_of, resolve_rates}
use yop_pms.Booking.Create.{CreateItemInput, insert_single_item, sell_nights, choose_room}

abbrev is_sold : InventoryStatus → Bool
is_sold sold = true
is_sold _ = false

-- A `sold` row of the item for the date.
abbrev pub sells : ℕ → ℕ → LedgerRow → Bool
sells item date r = column_is r.item item && (r.date == date && is_sold r.status)

-- The dates all have a `sold` row of the item.
unfoldable pub sold_on : ℕ → List ℕ → List LedgerRow → Bool
sold_on item [] ledger = true
sold_on item (d ∷ dates) ledger = any_where (sells item d) ledger && sold_on item dates ledger

module _ (env : Env) (room reservation item : ℕ) where
  insert_rows-keeps :
      (q : LedgerRow → Bool) (dates : List ℕ) (l l' : List LedgerRow)
      → insert_rows (sold_row env room reservation item) dates l ≡ some l'
      → any_where q l ≡ true
      → any_where q l' ≡ true
  unfolding insert_rows any_where
  insert_rows-keeps q [] l l' e h = ground arith
  insert_rows-keeps q (d ∷ dates) l l' e h =
      ground (arith, insert_rows-keeps q dates (sold_row env room reservation item d ∷ l) l')

  insert_rows-sold :
      (dates : List ℕ) (l l' : List LedgerRow)
      → insert_rows (sold_row env room reservation item) dates l ≡ some l'
      → sold_on item dates l' ≡ true
  unfolding insert_rows sold_on any_where
  insert_rows-sold [] l l' e = refl
  insert_rows-sold (d ∷ dates) l l' e = ground (
    arith,
    insert_rows-sold dates (sold_row env room reservation item d ∷ l) l',
    insert_rows-keeps (sells item d) dates (sold_row env room reservation item d ∷ l) l',
  )

sell_nights-sold :
    (env : Env) (room reservation item : ℕ) (dates : List ℕ) (db db' : Db) (u : Unit {0})
    → sell_nights env room reservation item dates db ≡ ok (u, db')
    → (sold_on item (map date_of dates) db'.ledger ≡ true)
      × (insert_rows (sold_row env room reservation item) (map date_of dates) db.ledger
          ≡ some db'.ledger)
unfolding sell_nights bulk_insert_ledger_rows
sell_nights-sold env room reservation item [] db db' u e = ground arith
sell_nights-sold env room reservation item (d ∷ dates) db db' u e =
    let rows : insert_rows (sold_row env room reservation item) (map date_of (d ∷ dates)) db.ledger
        ≡ some db'.ledger =
      ground arith in
    (
      insert_rows-sold env room reservation item (map date_of (d ∷ dates)) db.ledger db'.ledger
          rows,
      rows,
    )

-- The rows of the item for the nights, and no row that was there lost.
pub record Sold (input : CreateItemInput) (old : List LedgerRow) (item : Item) (db : Db)
    : Type 0 where
  pub nights :
      sold_on item.id (map date_of (nights_between input.arrival input.departure)) db.ledger ≡ true
  pub kept : (q : LedgerRow → Bool) → any_where q old ≡ true → any_where q db.ledger ≡ true

unfoldable pub Post : {A : Type 0} → (A → Db → Type 0) → Result (A × Db) → Type 0
Post Q (ok (a, db)) = Q a db
Post Q (err e) = Unit

-- `m` leads from tables with the ledger `l` to `Q`.
pub record Leads {A : Type 0} (l : List LedgerRow) (Q : A → Db → Type 0) (m : Tx A) : Type 0 where
  pub at : (db : Db) → db.ledger ≡ l → Post Q (m db)

continue-Leads :
    {A B : Type 0} (l : List LedgerRow) (Q : B → Db → Type 0) (r : Result (A × Db)) (f : A → Tx B)
    → After (λ d. d.ledger ≡ l) r
    → ((a : A) → Leads l Q (f a))
    → Post Q (continue r f)
unfolding Post
continue-Leads l Q (ok (a, d)) f h k = (k a).at d h
continue-Leads l Q (err e) f h k = tt

Leads-bind :
    {A B : Type 0} {l : List LedgerRow} {Q : B → Db → Type 0} (m : Tx A) (f : A → Tx B)
    → Keeps (λ d. d.ledger ≡ l) m
    → ((a : A) → Leads l Q (f a))
    → Leads l Q (m >>= f)
Leads-bind m f km k = record { at = λ db h. continue-Leads _ _ (m db) f (km.at db h) k }

module _ (env : Env) (l : List LedgerRow) where
  reads_rate :
      (d room_type plan weekday : ℕ)
      → Keeps (λ d. d.ledger ≡ l) (get_rate env d room_type plan weekday)
  unfolding get_rate
  reads_rate d room_type plan weekday = record { at = λ db h. ground arith }

  reads_rates :
      (room_type plan : ℕ) (dates : List ℕ)
      → Keeps (λ d. d.ledger ≡ l) (resolve_rates env room_type plan dates)
  unfolding resolve_rates
  reads_rates room_type plan [] = search keeps_rules
  reads_rates room_type plan (d ∷ dates) =
      Keeps-bind _ _ (reads_rate (date_of d) room_type plan (weekday d))
        λ r. Keeps-bind _ _ (reads_rates room_type plan dates) λ rs. Keeps-return _

  reads_rates_of :
      (room_type : ℕ) (plan : Option ℕ) (dates : List ℕ)
      → Keeps (λ d. d.ledger ≡ l) (rates_of env room_type plan dates)
  unfolding rates_of
  reads_rates_of room_type none dates = search keeps_rules
  reads_rates_of room_type (some p) dates = reads_rates room_type p dates

  reads_occupancy : (id : ℕ) → Keeps (λ d. d.ledger ≡ l) (get_room_type_occupancy env id)
  unfolding get_room_type_occupancy
  reads_occupancy id = record { at = λ db h. ground arith }

  reads_insert_item : (f : ℕ → Item) → Keeps (λ d. d.ledger ≡ l) (insert_item env f)
  unfolding insert_item
  reads_insert_item f = record { at = λ db h. ground arith }

  reads_room :
      (room_type : ℕ) (room : Option ℕ) (dates : List ℕ)
      → Keeps (λ d. d.ledger ≡ l) (choose_room env room_type room dates)
  unfolding choose_room select_room_for_auto_pin
  reads_room room_type none dates = record { at = λ db h. ground arith }
  reads_room room_type (some r) dates = search keeps_rules

  Sold-after :
      (input : CreateItemInput) (room reservation : ℕ) (item : Item) (db : Db)
      → db.ledger ≡ l
      → (s : Result (Unit {0} × Db))
      → sell_nights env room reservation item.id (nights_between input.arrival input.departure) db
        ≡ s
      → Post (Sold input l) (continue s (λ _. return item))
  unfolding Post
  Sold-after input room reservation item db h (err x) f = tt
  Sold-after input room reservation item db h (ok (u, d)) f =
      let dates = nights_between input.arrival input.departure in
      let s = sell_nights-sold env room reservation item.id dates db d u f in
      record {
        nights = s.0;
        kept = λ q k.
            insert_rows-keeps env room reservation item.id q (map date_of dates) db.ledger d.ledger
              s.1 (rw h k);
      }

  sell_nights-Sold :
      (input : CreateItemInput) (room reservation : ℕ) (item : Item)
      → Leads l (Sold input l) (
          sell_nights env room reservation item.id (nights_between input.arrival input.departure)
          >> return item)
  sell_nights-Sold input room reservation item = record {
    at = λ db h. Sold-after input room reservation item db h _ refl;
  }

  pub insert_single_item-Sold :
      (input : CreateItemInput) (status : ItemStatus) (reservation : ℕ)
      → Leads l (Sold input l) (insert_single_item env input status reservation)
  unfolding insert_single_item
  insert_single_item-Sold input status reservation =
      Leads-bind _ _ (reads_occupancy input.room_type) λ limits.
        Leads-bind _ _ (Keeps-fail_if _ _) λ _.
          Leads-bind _ _ (reads_rates_of input.room_type input.rate_plan _) λ rates.
            Leads-bind _ _ (reads_insert_item _) λ item.
              Leads-bind _ _ (reads_room input.room_type input.assigned_room _)
                λ room. sell_nights-Sold input room reservation item
