-- ===== src/Booking/Listing/Sorting.antt =====
-- The order of ListReservations, internal/store/reservation_crud.sql.go.
use yop_pms.Prelude.{
  ℕ, ◌≡◌, refl, ap, Bool, true, false, ◌&&◌, List, [], ◌∷◌, ◌==◌, All, select_where, arith, inl,
  inr, Bool-cases,
}
use yop_pms.Store.{Reservation}
use yop_pms.Booking.Listing.{precedes, insert_listed, sort_listed}

module _ {ℓ} {A : Type ℓ} where
  pub select-and :
      (p q : A → Bool) (xs : List A)
      → select_where (λ x. p x && q x) xs ≡ select_where q (select_where p xs)
  unfolding select_where
  select-and p q [] = refl
  select-and p q (x ∷ xs) = ground (arith, select-and p q xs)

  pub select-all : (xs : List A) → select_where (λ x. true) xs ≡ xs
  unfolding select_where
  select-all [] = refl
  select-all (x ∷ xs) = ap (λ l. x ∷ l) (select-all xs)

  pub select-None :
      (p : A → Bool) (xs : List A) → All (λ x. p x ≡ false) xs → select_where p xs ≡ []
  unfolding select_where
  select-None p [] h = refl
  select-None p (x ∷ xs) h = ground (arith, h, select-None p xs h.1)

  pub select-Every :
      (p : A → Bool) (xs : List A) → All (λ x. p x ≡ true) xs → select_where p xs ≡ xs
  unfolding select_where
  select-Every p [] h = refl
  select-Every p (x ∷ xs) h = ground (arith, h, select-Every p xs h.1)

module _ {ℓ κ} {A : Type ℓ} (P : A → Type κ) where
  pub All-select : (p : A → Bool) (xs : List A) → All P xs → All P (select_where p xs)
  unfolding select_where
  All-select p [] a = tt
  All-select p (x ∷ xs) a = elim (Bool-cases (p x)) [
    | inl l ↦ rw l (a.0, All-select p xs a.1)
    | inr l ↦ rw l (All-select p xs a.1)
  ]

module _ {κ} (P : Reservation → Type κ) where
  All-insert :
      (r : Reservation) (rows : List Reservation) → P r → All P rows → All P (insert_listed r rows)
  unfolding insert_listed
  All-insert r [] h a = (h, tt)
  All-insert r (s ∷ rows) h a = elim (Bool-cases (precedes r s)) [
    | inl l ↦ rw l (h, a)
    | inr l ↦ rw l (a.0, All-insert r rows h a.1)
  ]

  All-sort : (rows : List Reservation) → All P rows → All P (sort_listed rows)
  unfolding sort_listed
  All-sort [] a = tt
  All-sort (r ∷ rows) a = All-insert r (sort_listed rows) a.0 (All-sort rows a.1)

-- No other row is of the same reservation.
abbrev pub Unique : List Reservation → Type 0
Unique [] = Unit
Unique (r ∷ rows) = All (λ s. (r.id == s.id) ≡ false) rows × Unique rows

-- Each row precedes those behind it.
abbrev pub Ordered : List Reservation → Type 0
Ordered [] = Unit
Ordered (r ∷ rows) = All (λ s. precedes r s ≡ true) rows × Ordered rows

pub Unique-select :
    (p : Reservation → Bool) (rows : List Reservation) → Unique rows → Unique (select_where p rows)
unfolding select_where
Unique-select p [] u = tt
Unique-select p (r ∷ rows) u = elim (Bool-cases (p r)) [
  | inl l ↦ rw l (All-select (λ s. (r.id == s.id) ≡ false) p rows u.0, Unique-select p rows u.1)
  | inr l ↦ rw l (Unique-select p rows u.1)
]

==-swap : (m n : ℕ) → (m == n) ≡ false → (n == m) ≡ false
==-swap m n h = ground (arith, h)

Unique-insert :
    (r : Reservation) (rows : List Reservation)
    → All (λ s. (r.id == s.id) ≡ false) rows
    → Unique rows
    → Unique (insert_listed r rows)
unfolding insert_listed
Unique-insert r [] a u = (tt, tt)
Unique-insert r (s ∷ rows) a u = elim (Bool-cases (precedes r s)) [
  | inl l ↦ rw l (a, u)
  | inr l ↦ rw l (
    All-insert (λ t. (s.id == t.id) ≡ false) r rows (==-swap r.id s.id a.0) u.0,
    Unique-insert r rows a.1 u.1,
  )
]

pub Unique-sort : (rows : List Reservation) → Unique rows → Unique (sort_listed rows)
unfolding sort_listed
Unique-sort [] u = tt
Unique-sort (r ∷ rows) u =
    Unique-insert r (sort_listed rows) (All-sort (λ s. (r.id == s.id) ≡ false) rows u.0)
      (Unique-sort rows u.1)

precedes_total : (r s : Reservation) → precedes r s ≡ false → precedes s r ≡ true
precedes_total r s h = ground (arith, h)

precedes_trans :
    (r s t : Reservation) → precedes r s ≡ true → precedes s t ≡ true → precedes r t ≡ true
precedes_trans r s t h k = ground (arith, h, k)

pub precedes-All :
    (r s : Reservation) (rows : List Reservation)
    → precedes r s ≡ true
    → All (λ t. precedes s t ≡ true) rows
    → All (λ t. precedes r t ≡ true) rows
precedes-All r s [] h a = tt
precedes-All r s (t ∷ rows) h a = (precedes_trans r s t h a.0, precedes-All r s rows h a.1)

insert-Ordered :
    (r : Reservation) (rows : List Reservation) → Ordered rows → Ordered (insert_listed r rows)
unfolding insert_listed
insert-Ordered r [] o = (tt, tt)
insert-Ordered r (s ∷ rows) o = elim (Bool-cases (precedes r s)) [
  | inl l ↦ rw l ((l, precedes-All r s rows l o.0), o)
  | inr l ↦ rw l (
    All-insert (λ t. precedes s t ≡ true) r rows (precedes_total r s l) o.0,
    insert-Ordered r rows o.1,
  )
]

pub sort-Ordered : (rows : List Reservation) → Ordered (sort_listed rows)
unfolding sort_listed
sort-Ordered [] = tt
sort-Ordered (r ∷ rows) = insert-Ordered r (sort_listed rows) (sort-Ordered rows)
