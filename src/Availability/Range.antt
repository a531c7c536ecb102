-- ===== src/Availability/Range.antt =====
-- The dates that `availQuery` of internal/booking/availability.go asks for: they cover the nights that
-- the cache has not.
use yop_pms.Prelude.{
  ℕ, zero, suc, ◌+◌, ◌-◌, ◌*◌, ◌≤◌, ◌≡◌, refl, ◌∙◌, Bool, true, false, not, ◌&&◌, List, [], ◌∷◌,
  leb, ltb, ◌==◌, any_where, select_where, arith,
}
use yop_pms.Calendar.{day, date_of}
use yop_pms.Calendar.Nights.{days_from}
use yop_pms.Store.{Db}
use yop_pms.Availability.{Scope, available_on, series, value_on, last_of, queried}

value_on-asked :
    (db : Db) (s : Scope) (dates : List ℕ) (d : ℕ)
    → any_where (λ e. e == d) dates ≡ true
    → value_on db s dates d ≡ available_on db s d
unfolding value_on any_where
value_on-asked db s [] d h = cc
value_on-asked db s (e ∷ dates) d h = ground (arith, value_on-asked db s dates d)

any-series :
    (first n d : ℕ) → any_where (λ e. e == d) (series first n) ≡ (leb first d && ltb d (first + n))
unfolding series any_where
any-series first zero d = ground arith
any-series first (suc n) d = ground (arith, any-series (suc first) n d)

-- The dates do not go down.
ascends : List ℕ → Bool
ascends [] = true
ascends (x ∷ xs) = not (any_where (λ e. ltb (date_of e) (date_of x)) xs) && ascends xs

none_below :
    (p : ℕ → Bool) (low first n : ℕ)
    → low ≤ first
    → any_where (λ e. ltb (date_of e) low) (select_where p (days_from first n)) ≡ false
unfolding any_where select_where days_from
none_below p low first zero h = refl
none_below p low first (suc n) h = ground (arith, none_below p low (suc first) n (omega arith))

ascends-select : (p : ℕ → Bool) (first n : ℕ) → ascends (select_where p (days_from first n)) ≡ true
unfolding ascends select_where days_from
ascends-select p first zero = refl
ascends-select p first (suc n) = ground (
  arith,
  ascends-select p (suc first) n,
  none_below p (date_of (first * day)) (suc first) n (omega arith),
)

none_above :
    (x : ℕ) (xs : List ℕ)
    → ascends (x ∷ xs) ≡ true
    → any_where (λ e. ltb (date_of (last_of x xs)) (date_of e)) (x ∷ xs) ≡ false
unfolding ascends any_where
none_above x [] h = ground arith
none_above x (y ∷ xs) h = ground (arith, none_above y xs)

at_least :
    (low d : ℕ) (xs : List ℕ)
    → any_where (λ e. date_of e == d) xs ≡ true
    → any_where (λ e. ltb (date_of e) low) xs ≡ false
    → low ≤ d
unfolding any_where
at_least low d [] h k = cc
at_least low d (x ∷ xs) h k = ground (arith, at_least low d xs)

at_most :
    (high d : ℕ) (xs : List ℕ)
    → any_where (λ e. date_of e == d) xs ≡ true
    → any_where (λ e. ltb high (date_of e)) xs ≡ false
    → d ≤ high
unfolding any_where
at_most high d [] h k = cc
at_most high d (x ∷ xs) h k = ground (arith, at_most high d xs)

any-queried :
    (xs : List ℕ) (d : ℕ)
    → ascends xs ≡ true
    → any_where (λ e. date_of e == d) xs ≡ true
    → any_where (λ e. e == d) (queried xs) ≡ true
unfolding ascends any_where
any-queried [] d a h = cc
any-queried (x ∷ xs) d a h =
    let low : date_of x ≤ d = at_least (date_of x) d (x ∷ xs) h (ground arith) in
    let high : d ≤ date_of (last_of x xs) =
      at_most (date_of (last_of x xs)) d (x ∷ xs) h (none_above x xs a) in
    any-series (date_of x) (suc (date_of (last_of x xs)) - date_of x) d ∙ ground arith

-- A night that is among the ones to look up has its number from the query.
pub value_on-queried :
    (db : Db) (s : Scope) (p : ℕ → Bool) (first n d : ℕ)
    → any_where (λ e. date_of e == d) (select_where p (days_from first n)) ≡ true
    → value_on db s (queried (select_where p (days_from first n))) d ≡ available_on db s d
value_on-queried db s p first n d h =
    value_on-asked db s (queried (select_where p (days_from first n))) d
      (any-queried (select_where p (days_from first n)) d (ascends-select p first n) h)
