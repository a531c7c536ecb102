-- ===== src/Outbox/Counting.antt =====
-- Counts of rows through the statements of a claim: its condition, its order and its limit.
use yop_pms.Prelude.{
  ℕ, zero, suc, ◌+◌, ◌≤◌, ◌<◌, ◌≡◌, refl, Bool, true, false, ◌&&◌, List, [], ◌∷◌, ◌++◌, leb, take,
  All, any_where, count_where, select_where, update_where, least, arith, inl, inr, Bool-cases,
}
use yop_pms.Outbox.{Event, is_open, insert_by_time, sort_by_time, is_among}

module _ {ℓ} {A : Type ℓ} where
  pub count-update_le :
      (p c : A → Bool) (f : A → A) (xs : List A)
      → ((x : A) → p (f x) ≡ true → p x ≡ true)
      → count_where p (update_where c f xs) ≤ count_where p xs
  unfolding count_where update_where
  count-update_le p c f [] h = omega arith
  count-update_le p c f (x ∷ xs) h = ground (arith, h x, count-update_le p c f xs h)

  -- What a write takes out of a count.
  pub count-update_out :
      (p q : A → Bool) (f : A → A) (xs : List A)
      → ((x : A) → p (f x) ≡ false)
      → count_where p (update_where q f xs) + count_where (λ x. p x && q x) xs ≡ count_where p xs
  unfolding count_where update_where
  count-update_out p q f [] h = refl
  count-update_out p q f (x ∷ xs) h = ground (arith, h x, count-update_out p q f xs h)

  pub count-select :
      (p d : A → Bool) (xs : List A)
      → ((x : A) → p x ≡ true → d x ≡ true)
      → count_where p (select_where d xs) ≡ count_where p xs
  unfolding count_where select_where
  count-select p d [] h = refl
  count-select p d (x ∷ xs) h = ground (arith, h x, count-select p d xs h)

  pub count-select_le :
      (p d : A → Bool) (xs : List A) → count_where p (select_where d xs) ≤ count_where p xs
  unfolding count_where select_where
  count-select_le p d [] = omega arith
  count-select_le p d (x ∷ xs) = ground (arith, count-select_le p d xs)

  pub count-take_le :
      (p : A → Bool) (n : ℕ) (xs : List A) → count_where p (take n xs) ≤ count_where p xs
  unfolding count_where
  count-take_le p zero xs = omega arith
  count-take_le p (suc n) [] = omega arith
  count-take_le p (suc n) (x ∷ xs) = ground (arith, count-take_le p n xs)

  pub count-append_out :
      (p : A → Bool) (xs : List A) (x : A)
      → p x ≡ false
      → count_where p (xs ++ x ∷ []) ≡ count_where p xs
  unfolding count_where
  count-append_out p [] x h = ground (arith, h)
  count-append_out p (y ∷ xs) x h = ground (arith, count-append_out p xs x h)

  pub select-All : (d : A → Bool) (xs : List A) → All (λ x. d x ≡ true) (select_where d xs)
  unfolding select_where
  select-All d [] = tt
  select-All d (x ∷ xs) = ground (arith, select-All d xs)

module _ (p : Event → Bool) where
  count-insert :
      (e : Event) (events : List Event)
      → count_where p (insert_by_time e events) ≡ count_where p (e ∷ events)
  unfolding count_where insert_by_time
  count-insert e [] = refl
  count-insert e (f ∷ events) = ground (arith, count-insert e events)

  pub count-sort :
      (events : List Event) → count_where p (sort_by_time events) ≡ count_where p events
  unfolding count_where sort_by_time
  count-sort [] = refl
  count-sort (e ∷ events) = ground (arith, count-insert e (sort_by_time events), count-sort events)

-- The rows stand in the order of their times, and each is open.
abbrev pub Ordered : List Event → Type 0
Ordered [] = Unit
Ordered (e ∷ events) =
    (is_open e.status ≡ true) × (All (λ f. e.process_at ≤ f.process_at) events × Ordered events)

insert-All :
    (t : ℕ) (e : Event) (events : List Event)
    → t ≤ e.process_at
    → All (λ f. t ≤ f.process_at) events
    → All (λ f. t ≤ f.process_at) (insert_by_time e events)
unfolding insert_by_time
insert-All t e [] h a = (h, tt)
insert-All t e (f ∷ events) h a = ground (arith, h, a, insert-All t e events h)

weaker :
    (t u : ℕ) (events : List Event)
    → t ≤ u
    → All (λ f. u ≤ f.process_at) events
    → All (λ f. t ≤ f.process_at) events
weaker t u [] h a = tt
weaker t u (f ∷ events) h a = (omega (arith, h, a.0), weaker t u events h a.1)

insert-Ordered :
    (e : Event) (events : List Event)
    → is_open e.status ≡ true
    → Ordered events
    → Ordered (insert_by_time e events)
unfolding insert_by_time
insert-Ordered e [] o a = (o, (tt, tt))
insert-Ordered e (f ∷ events) o a = elim (Bool-cases (leb e.process_at f.process_at)) [
  | inl l ↦ rw l (
    o,
    ((ground (arith, l), weaker e.process_at f.process_at events (ground (arith, l)) a.1.0), a),
  )
  | inr l ↦ rw l (
    a.0,
    (insert-All f.process_at e events (ground (arith, l)) a.1.0, insert-Ordered e events o a.1.1),
  )
]

pub sort-Ordered :
    (events : List Event)
    → All (λ e. is_open e.status ≡ true) events
    → Ordered (sort_by_time events)
unfolding sort_by_time
sort-Ordered [] a = tt
sort-Ordered (e ∷ events) a = insert-Ordered e (sort_by_time events) a.0 (sort-Ordered events a.1)

-- Open, and due at `t`.
abbrev pub due_at : ℕ → Event → Bool
due_at t e = is_open e.status && leb e.process_at t

none_due :
    (t u : ℕ) (events : List Event)
    → t < u
    → All (λ f. u ≤ f.process_at) events
    → count_where (due_at t) events ≡ 0
unfolding count_where
none_due t u [] h a = refl
none_due t u (f ∷ events) h a = ground (arith, h, a, none_due t u events h)

-- A limit takes the rows that were due first.
pub count-take_first :
    (t n : ℕ) (events : List Event)
    → Ordered events
    → least n (count_where (due_at t) events) ≤ count_where (due_at t) (take n events)
unfolding count_where
count-take_first t zero events a = ground arith
count-take_first t (suc n) [] a = ground arith
count-take_first t (suc n) (e ∷ events) a =
    ground (arith, a, none_due t e.process_at events, count-take_first t n events a.1.1)

is_among_more :
    (x : Event) (rows events : List Event)
    → All (λ e. is_among rows e ≡ true) events
    → All (λ e. is_among (x ∷ rows) e ≡ true) events
unfolding any_where
is_among_more x rows [] a = tt
is_among_more x rows (e ∷ events) a = (ground (arith, a.0), is_among_more x rows events a.1)

is_among_self : (rows : List Event) → All (λ e. is_among rows e ≡ true) rows
unfolding any_where
is_among_self [] = tt
is_among_self (x ∷ rows) = (ground arith, is_among_more x rows rows (is_among_self rows))

count_both :
    (p q : Event → Bool) (events : List Event)
    → All (λ e. q e ≡ true) events
    → count_where (λ e. p e && q e) events ≡ count_where p events
unfolding count_where
count_both p q [] a = refl
count_both p q (e ∷ events) a = ground (arith, a, count_both p q events)

-- Every row of a batch is among the batch.
pub count-among :
    (p : Event → Bool) (rows : List Event)
    → count_where (λ e. p e && is_among rows e) rows ≡ count_where p rows
count-among p rows = count_both p (is_among rows) rows (is_among_self rows)
