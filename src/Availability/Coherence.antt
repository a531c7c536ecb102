-- ===== src/Availability/Coherence.antt =====
-- `CheckAvailability` of internal/booking/availability.go against the numbers that the database has, for a cache
-- that says nothing else.
use yop_pms.Prelude.{
  ℕ, ◌≡◌, refl, Bool, true, not, ◌&&◌, ◌||◌, List, [], ◌∷◌, map, ◌==◌, is_none, coalesce, any_where,
  select_where, arith,
}
use yop_pms.Calendar.{date_of}
use yop_pms.Store.{Db}
use yop_pms.Redis.{Redis}
use yop_pms.Availability.{
  ℤ, Decimal, DateAvailability, Scope, available_on, cached, uncached, build_result,
}

-- The answer without a cache.
abbrev pub fresh : Db → Scope → List ℕ → List DateAvailability
fresh db s nights =
    map (λ night. record { night = night; available = available_on db s (date_of night) }) nights

module _ {V R : Type 0} (redis : Redis V R) (decimal : Decimal V) where
  -- What the cache says for a night, where it says anything, is what the database has.
  abbrev pub Coherent : Db → Scope → R → Type 0
  Coherent db s r =
      (night : ℕ)
      → coalesce (cached redis decimal r s night) (available_on db s (date_of night))
        ≡ available_on db s (date_of night)

  -- The nights of `nights` that the cache has not are all in `missing`.
  unfoldable pub covers : R → Scope → List ℕ → List ℕ → Bool
  covers r s missing [] = true
  covers r s missing (night ∷ nights) =
      (not (is_none (cached redis decimal r s night))
        || any_where (λ e. date_of e == date_of night) missing)
      && covers r s missing nights

  covers-more :
      (r : R) (s : Scope) (x : ℕ) (missing nights : List ℕ)
      → covers r s missing nights ≡ true
      → covers r s (x ∷ missing) nights ≡ true
  unfolding covers any_where
  covers-more r s x missing [] h = refl
  covers-more r s x missing (night ∷ nights) h = ground (arith, covers-more r s x missing nights)

  pub covers-uncached :
      (r : R) (s : Scope) (nights : List ℕ)
      → covers r s (uncached redis decimal r s nights) nights ≡ true
  unfolding covers any_where select_where
  covers-uncached r s [] = refl
  covers-uncached r s (night ∷ nights) = ground (
    arith,
    covers-uncached r s nights,
    covers-more r s night (uncached redis decimal r s nights) nights,
  )

  pub build-fresh :
      (db : Db) (s : Scope) (r : R) (value : ℕ → ℤ) (missing nights : List ℕ)
      → Coherent db s r
      → ((d : ℕ) → any_where (λ e. date_of e == d) missing ≡ true → value d ≡ available_on db s d)
      → covers r s missing nights ≡ true
      → build_result redis decimal r s value nights ≡ fresh db s nights
  unfolding build_result covers
  build-fresh db s r value missing [] c v h = refl
  build-fresh db s r value missing (night ∷ nights) c v h =
      ground (arith, c night, v (date_of night), build-fresh db s r value missing nights c v)
