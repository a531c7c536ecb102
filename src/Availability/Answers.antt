-- ===== src/Availability/Answers.antt =====
-- The cache of `CheckAvailability` in internal/booking/availability.go as a state that requests share: what
-- reads, fills and deletions leave of its agreement with the database.
use yop_pms.Prelude.{
  ℕ, ◌-◌, ◌≡◌, ◌⊎◌, refl, ap, subst, true, false, List, [], ◌∷◌, ltb, ◌==◌, is_none, any_where, inl,
  inr,
}
use yop_pms.Calendar.{date_of, nights_between}
use yop_pms.Calendar.Nights.{nights_between-days_from}
use yop_pms.Store.{Db, ok}
use yop_pms.Redis.{Redis}
use yop_pms.Availability.{
  pos, Decimal, Scope, available_on, cached, uncached, build_result, Faults, value_of, fill,
  check_availability,
}
use yop_pms.Availability.Range.{value_on-queried}
use yop_pms.Availability.Coherence.{fresh, Coherent, covers, covers-uncached, build-fresh}

pub List-cases : (xs : List ℕ) → (xs ≡ []) ⊎ ((x : ℕ) × (ys : List ℕ) × (xs ≡ (x ∷ ys)))
List-cases [] = inl refl
List-cases (x ∷ ys) = inr (x, ys, refl)

module _ {V R : Type 0} (redis : Redis V R) (decimal : Decimal V) where
  pub value_of-available :
      (db : Db) (r : R) (s : Scope) (start end d : ℕ)
      → any_where (λ e. date_of e == d) (uncached redis decimal r s (nights_between start end))
        ≡ true
      → value_of redis decimal db r s (nights_between start end) d ≡ available_on db s d
  value_of-available db r s start end d = rw (nights_between-days_from start end) (
      value_on-queried db s (λ night. is_none (cached redis decimal r s night)) (date_of start)
        (date_of end - date_of start) d)

  fill-fresh :
      (f : Faults) (db : Db) (r : R) (s : Scope) (start end : ℕ)
      → f.query ≡ false
      → Coherent redis decimal db s r
      → (fill redis decimal f db r s (nights_between start end)).result
        ≡ ok (fresh db s (nights_between start end))
  unfolding fill
  fill-fresh f db r s start end q c = rw q (
      ap ok (
        build-fresh redis decimal db s r (value_of redis decimal db r s (nights_between start end))
          (uncached redis decimal r s (nights_between start end)) (nights_between start end) c
          (value_of-available db r s start end)
          (covers-uncached redis decimal r s (nights_between start end))))

  hit-fresh :
      (db : Db) (r : R) (s : Scope) (nights : List ℕ)
      → uncached redis decimal r s nights ≡ []
      → Coherent redis decimal db s r
      → build_result redis decimal r s (λ d. pos 0) nights ≡ fresh db s nights
  unfolding any_where
  hit-fresh db r s nights e c =
      build-fresh redis decimal db s r (λ d. pos 0) [] nights c (λ d h. cc)
        (subst (λ missing. covers redis decimal r s missing nights ≡ true) e
          (covers-uncached redis decimal r s nights))

  -- Where neither the cache nor the database fails, the answer for a period that ends after it
  -- starts is the number of free rooms that the database has for each of its nights, however much
  -- of it comes from the cache, if what the cache holds is what the database has.
  pub check_availability-fresh :
      (f : Faults) (db : Db) (r : R) (s : Scope) (start end : ℕ)
      → ltb start end ≡ true
      → f.mget ≡ false
      → f.query ≡ false
      → Coherent redis decimal db s r
      → (check_availability redis decimal f db r s start end).result
        ≡ ok (fresh db s (nights_between start end))
  unfolding check_availability any_where
  check_availability-fresh f db r s start end o m q c =
      elim (List-cases (uncached redis decimal r s (nights_between start end))) [
        | inl e ↦ rw (o, m, e) (ap ok (hit-fresh db r s (nights_between start end) e c))
        | inr (x, ys, e) ↦ rw (o, m, e) (fill-fresh f db r s start end q c)
      ]
