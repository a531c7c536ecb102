-- ===== src/Booking/Outcome/Touch.antt =====
-- What the loops of `CheckInReservation` and `CheckOutReservation` (internal/booking/service_lifecycle.go) make of
-- the rows.
use yop_pms.Prelude.{
  ◌+◌, ◌≡◌, refl, ap, ◌∙◌, Bool, true, false, ◌&&◌, Option, none, some, List, [], ◌∷◌, ◌==◌,
  if◌then◌else◌, or_else, map, All, find_where, select_where, update_where, arith, inl, inr,
  Bool-cases,
}
use yop_pms.Status.{ItemStatus}
use yop_pms.Store.{Env, Item}
use yop_pms.Store.Items.{is_item_version, with_params}
use yop_pms.Booking.{status_params}

-- No other row has its id.
abbrev pub UniqueItems : List Item → Type 0
UniqueItems [] = Unit
UniqueItems (i ∷ items) = All (λ j. (i.id == j.id) ≡ false) items × UniqueItems items

-- The row of an item that is moved to a status.
abbrev pub moved : Env → ItemStatus → Item → Item
moved env status i = record i { status = status; version = i.version + 1; updated_at = env.now }

or_else-same : {A : Type 0} → (o : Option A) → or_else o o ≡ o
or_else-same none = refl
or_else-same (some a) = refl

pub params-moved :
    (env : Env) (status : ItemStatus) (i : Item)
    → with_params env (status_params i i.version status) i ≡ moved env status i
params-moved env status i =
    ap
      (λ o. record i {
        assigned_room = o;
        rate_plan = or_else i.rate_plan i.rate_plan;
        status = status;
        version = i.version + 1;
        updated_at = env.now;
      })
      (or_else-same i.assigned_room)
    ∙ ap
        (λ o. record i {
          rate_plan = o;
          status = status;
          version = i.version + 1;
          updated_at = env.now;
        })
        (or_else-same i.rate_plan)

-- A batch that moves to `status` the items that `acts` takes.
module _ (env : Env) (status : ItemStatus) (acts : Item → Bool) where
  -- The statement finds the row of `i`.
  abbrev pub Found : List Item → Item → Type 0
  Found table i = find_where (is_item_version env i.id i.version) table ≡ some i

  -- What the turn of `i` makes of a row.
  abbrev pub touch : Item → Item → Item
  touch i x =
      if acts i && is_item_version env i.id i.version x
      then with_params env (status_params i i.version status) x
      else x

  abbrev pub touch_all : List Item → Item → Item
  touch_all [] x = x
  touch_all (i ∷ items) x = touch_all items (touch i x)

  touch-other : (i x : Item) → (i.id == x.id) ≡ false → touch i x ≡ x
  touch-other i x h = ground (arith, h)

  touch_all-other :
      (items : List Item) (x : Item)
      → All (λ i. (x.id == i.id) ≡ false) items
      → touch_all items x ≡ x
  touch_all-other [] x a = refl
  touch_all-other (i ∷ items) x a =
      ap (touch_all items) (touch-other i x (ground (arith, a.0))) ∙ touch_all-other items x a.1

  found-touch :
      (i j : Item) (table : List Item)
      → (i.id == j.id) ≡ false
      → find_where (is_item_version env j.id j.version) (map (touch i) table)
        ≡ find_where (is_item_version env j.id j.version) table
  unfolding find_where
  found-touch i j [] h = refl
  found-touch i j (x ∷ table) h = ground (arith, h, found-touch i j table h)

  pub Found-touch :
      (i : Item) (table items : List Item)
      → All (λ j. (i.id == j.id) ≡ false) items
      → All (Found table) items
      → All (Found (map (touch i) table)) items
  Found-touch i table [] a f = tt
  Found-touch i table (j ∷ items) a f =
      (found-touch i j table a.0 ∙ f.0, Found-touch i table items a.1 f.1)

  pub map-touches :
      (i : Item) (items table : List Item)
      → map (touch_all items) (map (touch i) table) ≡ map (touch_all (i ∷ items)) table
  map-touches i items [] = refl
  map-touches i items (x ∷ table) =
      ap (λ l. touch_all (i ∷ items) x ∷ l) (map-touches i items table)

  pub update-touch :
      (i : Item) (table : List Item)
      → acts i ≡ true
      → update_where
          (is_item_version env i.id i.version)
          (with_params env (status_params i i.version status))
          table
        ≡ map (touch i) table
  unfolding update_where
  update-touch i [] a = refl
  update-touch i (x ∷ table) a = ground (arith, a, update-touch i table a)

  pub touch-idle : (i : Item) (table : List Item) → acts i ≡ false → map (touch i) table ≡ table
  touch-idle i [] a = refl
  touch-idle i (x ∷ table) a = ground (arith, a, touch-idle i table a)

  pub map-nothing : (table : List Item) → table ≡ map (touch_all []) table
  map-nothing [] = refl
  map-nothing (x ∷ table) = ap (λ l. x ∷ l) (map-nothing table)

  module _ (p : Item → Bool)
      (sees : (i : Item) → p i ≡ true → is_item_version env i.id i.version i ≡ true) where
    select-other :
        (i : Item) (table : List Item)
        → All (λ j. (i.id == j.id) ≡ false) table
        → All (λ j. (i.id == j.id) ≡ false) (select_where p table)
    unfolding select_where
    select-other i [] a = tt
    select-other i (x ∷ table) a = elim (Bool-cases (p x)) [
      | inl l ↦ rw l (a.0, select-other i table a.1)
      | inr l ↦ rw l (select-other i table a.1)
    ]

    pub select-Unique : (table : List Item) → UniqueItems table → UniqueItems (select_where p table)
    unfolding select_where
    select-Unique [] u = tt
    select-Unique (x ∷ table) u = elim (Bool-cases (p x)) [
      | inl l ↦ rw l (select-other x table u.0, select-Unique table u.1)
      | inr l ↦ rw l (select-Unique table u.1)
    ]

    Found-behind :
        (x : Item) (table items : List Item)
        → All (λ j. (x.id == j.id) ≡ false) items
        → All (Found table) items
        → All (Found (x ∷ table)) items
    unfolding find_where
    Found-behind x table [] a f = tt
    Found-behind x table (j ∷ items) a f =
        (ground (arith, a, f), Found-behind x table items a.1 f.1)

    pub select-Found :
        (table : List Item) → UniqueItems table → All (Found table) (select_where p table)
    unfolding select_where find_where
    select-Found [] u = tt
    select-Found (x ∷ table) u =
        let behind =
          Found-behind x table (select_where p table) (select-other x table u.0)
            (select-Found table u.1) in
        elim (Bool-cases (p x)) [
          | inl l ↦ rw l (ground (arith, sees x l), behind)
          | inr l ↦ rw l behind
        ]

    touched-tail :
        (i : Item) (items table : List Item)
        → All (λ j. (i.id == j.id) ≡ false) table
        → map (touch_all (i ∷ items)) table ≡ map (touch_all items) table
    touched-tail i items [] a = refl
    touched-tail i items (x ∷ table) a =
        ground (arith, touch-other i x a.0, touched-tail i items table a.1)

    -- The turns of the items together move, of those that they are for, the ones to be moved.
    pub touches-update :
        (table : List Item)
        → UniqueItems table
        → map (touch_all (select_where p table)) table
          ≡ update_where (λ x. p x && acts x) (moved env status) table
    unfolding select_where update_where
    touches-update [] u = refl
    touches-update (x ∷ table) u = ground (
      arith,
      sees x,
      params-moved env status x,
      touched-tail x (select_where p table) table u.0,
      touch_all-other (select_where p table) x (select-other x table u.0),
      touch_all-other (select_where p table) (with_params env (status_params x x.version status) x)
          (select-other x table u.0),
      touches-update table u.1,
    )
