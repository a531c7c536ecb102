-- ===== src/Booking/Listing/Pages.antt =====
-- What follows the cursor of ListReservations, internal/store/reservation_crud.sql.go.
use yop_pms.Prelude.{
  ◌≡◌, refl, ap, ◌∙◌, subst, Bool, true, false, some, none, List, [], ◌∷◌, ◌++◌, ◌==◌, take, All,
  All-second, select_where, arith, inl, inr, Bool-cases,
}
use yop_pms.Store.{Reservation}
use yop_pms.Booking.Listing.{
  ListQuery, is_listed, is_behind, precedes, insert_listed, sort_listed, listed,
}
use yop_pms.Booking.Listing.Sorting.{
  Ordered, Unique, select-and, select-all, select-Every, All-select, Unique-select, Unique-sort,
  sort-Ordered, precedes-All,
}

module _ (p : Reservation → Bool) where
  insert-first :
      (r : Reservation) (rows : List Reservation)
      → All (λ s. precedes r s ≡ true) rows
      → insert_listed r rows ≡ r ∷ rows
  unfolding insert_listed
  insert-first r [] a = refl
  insert-first r (s ∷ rows) a = ground (arith, a)

  select-insert_in :
      (r : Reservation) (rows : List Reservation)
      → p r ≡ true
      → Ordered rows
      → select_where p (insert_listed r rows) ≡ insert_listed r (select_where p rows)
  unfolding select_where insert_listed
  select-insert_in r [] h o = rw h refl
  select-insert_in r (s ∷ rows) h o = elim (Bool-cases (precedes r s)) [
    | inl l ↦
        let first =
          insert-first r (select_where p (s ∷ rows))
            (All-select (λ t. precedes r t ≡ true) p (s ∷ rows) (l, precedes-All r s rows l o.0)) in
        ground (arith, h, l, first)
    | inr l ↦ ground (arith, l, select-insert_in r rows h o.1)
  ]

  select-insert_out :
      (r : Reservation) (rows : List Reservation)
      → p r ≡ false
      → select_where p (insert_listed r rows) ≡ select_where p rows
  unfolding select_where insert_listed
  select-insert_out r [] h = rw h refl
  select-insert_out r (s ∷ rows) h = ground (arith, h, select-insert_out r rows h)

  select-sort :
      (rows : List Reservation)
      → sort_listed (select_where p rows) ≡ select_where p (sort_listed rows)
  unfolding select_where sort_listed
  select-sort [] = refl
  select-sort (r ∷ rows) = elim (Bool-cases (p r)) [
    | inl l ↦
        ground
          (arith, l, select-insert_in r (sort_listed rows) l (sort-Ordered rows), select-sort rows)
    | inr l ↦ ground (arith, l, select-insert_out r (sort_listed rows) l, select-sort rows)
  ]

-- What lies behind the row `r`.
abbrev behind : Reservation → Reservation → Bool
behind r = is_behind (some r.envelope.lower) r.id

precedes-behind : (r s : Reservation) → precedes s r ≡ true → behind r s ≡ false
precedes-behind r s h = ground (arith, h)

behind-precedes :
    (r s : Reservation) → precedes r s ≡ true → (r.id == s.id) ≡ false → behind r s ≡ true
behind-precedes r s h u = ground (arith, h, u)

back-behind :
    (r : Reservation) (back : List Reservation)
    → All (λ s. precedes r s ≡ true) back
    → All (λ s. (r.id == s.id) ≡ false) back
    → All (λ s. behind r s ≡ true) back
back-behind r [] a u = tt
back-behind r (s ∷ back) a u = (behind-precedes r s a.0 u.0, back-behind r back a.1 u.1)

select-behind :
    (r : Reservation) (front back : List Reservation)
    → Ordered (front ++ r ∷ back)
    → Unique (front ++ r ∷ back)
    → select_where (behind r) (front ++ r ∷ back) ≡ back
unfolding select_where
select-behind r [] back o u =
    let all = select-Every (behind r) back (back-behind r back o.0 u.0) in ground (arith, all)
select-behind r (s ∷ front) back o u =
    let out = precedes-behind r s (All-second (λ t. precedes s t ≡ true) front (r ∷ back) o.0).0 in
    ground (arith, out, select-behind r front back o.1 u.1)

-- The query for the page after the row `r`.
abbrev pub after : ListQuery → Reservation → ListQuery
after q r = record {
  property = q.property;
  status = q.status;
  cursor_date = some r.envelope.lower;
  cursor_id = r.id;
  start_date = q.start_date;
  end_date = q.end_date;
  limit = q.limit;
}

-- The query for the first page.
abbrev pub start : ListQuery → ListQuery
start q = record {
  property = q.property;
  status = q.status;
  cursor_date = none;
  cursor_id = 0;
  start_date = q.start_date;
  end_date = q.end_date;
  limit = q.limit;
}

-- Where no two rows share an id, let the rows that meet the conditions of a query be, in the order
-- of the list, `front`, then a row `r`, then `back`. The first page is the first rows of all these,
-- up to the limit, and the page whose cursor is the arrival and the id of `r` is the first rows of
-- `back`, up to the limit: no row comes twice and none is passed over.
pub listed-pages :
    (q : ListQuery) (rows front back : List Reservation) (r : Reservation)
    → Unique rows
    → sort_listed (select_where (is_listed q) rows) ≡ front ++ r ∷ back
    → (listed (start q) rows ≡ take q.limit (front ++ r ∷ back))
      × (listed (after q r) rows ≡ take q.limit back)
unfolding listed
listed-pages q rows front back r u e =
    let kept = select_where (is_listed q) rows in
    let every = select-and (is_listed q) (λ s. true) rows ∙ select-all kept in
    let rest = select-and (is_listed q) (behind r) rows in
    let last =
      select-behind r front back (subst Ordered e (sort-Ordered kept))
        (subst Unique e (Unique-sort kept (Unique-select (is_listed q) rows u))) in
    (
      ap (λ l. take q.limit (sort_listed l)) every ∙ ap (take q.limit) e,
      ap (λ l. take q.limit (sort_listed l)) rest
          ∙ ap (take q.limit) (select-sort (behind r) kept ∙ ap (select_where (behind r)) e ∙ last),
    )
