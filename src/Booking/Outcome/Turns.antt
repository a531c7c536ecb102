-- ===== src/Booking/Outcome/Turns.antt =====
-- The turns of the items in `CheckInReservation` and `CheckOutReservation` of
-- internal/booking/service_lifecycle.go.
use yop_pms.Prelude.{
  ◌≡◌, refl, sym, subst, Bool, true, false, none, some, List, [], ◌∷◌, map, All, arith,
}
use yop_pms.Status.{ItemStatus}
use yop_pms.Store.{Db, Env, Item, Result, ok, err}
use yop_pms.Store.Tx.{Tx}
use yop_pms.Store.Items.{update_reservation_item}
use yop_pms.Booking.Batch.{BatchItem, try_status, each_item}
use yop_pms.Booking.Outcome.Touch.{
  UniqueItems, moved, params-moved, Found, touch, touch_all, Found-touch, map-touches, update-touch,
  map-nothing,
}

module _ (env : Env) (status : ItemStatus) (acts : Item → Bool) where
  abbrev pub done : Item → BatchItem
  done i = record { id = i.id; item = some (moved env status i); error = none }

  -- What the turn of `i` comes to in a transaction that can still commit.
  abbrev pub ItemTurn : (Item → BatchItem) → Tx BatchItem → Item → Type 0
  ItemTurn res one i =
      (db db1 : Db) (r : BatchItem)
      → one db ≡ ok (r, db1)
      → db1.aborted ≡ false
      → Found env status acts db.items i
      → (r ≡ res i) × (db1.items ≡ map (touch env status acts i) db.items)

  pub try-ItemTurn : (i : Item) → acts i ≡ true → ItemTurn done (try_status env i status) i
  unfolding update_reservation_item
  try-ItemTurn i a db db1 r h o f =
      ground (arith, h, o, f, update-touch env status acts i db.items a, params-moved env status i)

  -- A transaction that can still commit after a turn could before it.
  unfoldable pub Live : Tx BatchItem → Type 0
  Live one =
      (db db1 : Db) (r : BatchItem)
      → one db ≡ ok (r, db1)
      → db1.aborted ≡ false
      → db.aborted ≡ false

  module _ (one : Item → Tx BatchItem) (res : Item → BatchItem) (live : (i : Item) → Live (one i))
      (turn : (i : Item) → ItemTurn res (one i) i) where
    unfoldable pub LiveItems : List Item → Type 0
    LiveItems items =
        (db db' : Db) (rs : List BatchItem)
        → each_item one items db ≡ ok (rs, db')
        → db'.aborted ≡ false
        → db.aborted ≡ false

    pub each_item-Live : (items : List Item) → LiveItems items
    unfolding each_item LiveItems Live
    each_item-Live [] db db' rs e o = ground (arith, e, o)
    each_item-Live (i ∷ items) db db' rs e o =
        first (λ d d' rs' g p. each_item-Live items d d' rs' g p) (one i db) refl
      where
        rest :
            LiveItems items
            → (r : BatchItem) (db1 : Db) → one i db ≡ ok (r, db1)
            → (s : Result (List BatchItem × Db)) → each_item one items db1 ≡ s
            → db.aborted ≡ false
        rest later r db1 g (ok (rs2, db2)) k =
            live i db db1 r g (later db1 db2 rs2 k (ground (arith, e, o, g, k)))
        rest later r db1 g (err x) k = ground arith

        first : LiveItems items → (s : Result (BatchItem × Db)) → one i db ≡ s → db.aborted ≡ false
        first later (ok (r, db1)) g = rest later r db1 g (each_item one items db1) refl
        first later (err x) g = ground arith

    unfoldable pub Turns : List Item → Type 0
    Turns items =
        (db db' : Db) (rs : List BatchItem)
        → each_item one items db ≡ ok (rs, db')
        → db'.aborted ≡ false
        → UniqueItems items
        → All (Found env status acts db.items) items
        → (rs ≡ map res items) × (db'.items ≡ map (touch_all env status acts items) db.items)

    pub each_item-Turns : (items : List Item) → Turns items
    unfolding each_item Turns LiveItems
    each_item-Turns [] db db' rs e o u f =
        ground (arith, e, o, map-nothing env status acts db.items)
    each_item-Turns (i ∷ items) db db' rs e o u f =
        first (λ d d' rs' g p v h. each_item-Turns items d d' rs' g p v h) (one i db) refl
      where
        Goal : Type 0
        Goal =
            (rs ≡ map res (i ∷ items))
            × (db'.items ≡ map (touch_all env status acts (i ∷ items)) db.items)

        rest :
            Turns items
            → (r : BatchItem) (db1 : Db) → one i db ≡ ok (r, db1)
            → (s : Result (List BatchItem × Db)) → each_item one items db1 ≡ s
            → Goal
        rest later r db1 g (ok (rs2, db2)) k =
            let o2 : db2.aborted ≡ false = ground (arith, e, o, g, k) in
            let t = turn i db db1 r g (each_item-Live items db1 db2 rs2 k o2) f.0 in
            let found =
              subst (λ table. All (Found env status acts table) items) (sym t.1)
                (Found-touch env status acts i db.items items u.0 f.1) in
            let l = later db1 db2 rs2 k o2 u.1 found in
            ground (arith, e, g, k, t, l, map-touches env status acts i items db.items)
        rest later r db1 g (err x) k = ground arith

        first : Turns items → (s : Result (BatchItem × Db)) → one i db ≡ s → Goal
        first later (ok (r, db1)) g = rest later r db1 g (each_item one items db1) refl
        first later (err x) g = ground arith
