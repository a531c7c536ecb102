-- ===== src/Availability/Created.antt =====
-- `invalidateAvailabilityAfterCreate` of internal/booking/service_create.go: what a creation takes out of the cache.
use yop_pms.Prelude.{
  ℕ, ◌≡◌, Bool, true, false, not, ◌&&◌, Option, none, some, List, [], ◌∷◌, ◌==◌, if◌then◌else◌,
  any_where, find_where, arith,
}
use yop_pms.Calendar.{nights_between, in_set}
use yop_pms.Redis.{Redis, IsRedis}
use yop_pms.Booking.Create.{CreateItemInput}
use yop_pms.Availability.{Decimal, Scope, cached, invalidate_availability_cache}
use yop_pms.Availability.Shared.{cached-delete_all}

abbrev is_seen : ℕ → List ℕ → Bool
is_seen room_type seen = any_where (λ x. x == room_type) seen

-- The nights of the first item for a room type.
abbrev pub in_first : ℕ → ℕ → Option CreateItemInput → Bool
in_first room_type night none = false
in_first room_type night (some i) = in_set night (nights_between i.arrival i.departure)

abbrev pub first_for : ℕ → List CreateItemInput → Option CreateItemInput
first_for room_type items = find_where (λ i. i.room_type == room_type) items

module _ {V R : Type 0} (redis : Redis V R) (decimal : Decimal V) where
  -- The loop over the items, with the room types that it has seen.
  unfoldable invalidate_items : (ℕ → Bool) → ℕ → List ℕ → List CreateItemInput → R → R
  unfolding any_where
  invalidate_items deletes property seen [] r = r
  invalidate_items deletes property seen (i ∷ items) r = elim (is_seen i.room_type seen) [
    | true ↦ invalidate_items deletes property seen items r
    | false ↦ invalidate_items deletes property (i.room_type ∷ seen) items (
        invalidate_availability_cache redis decimal deletes
          (record { property = property; room_type = i.room_type }) i.arrival i.departure r)
  ]

  unfoldable pub invalidate_after_create : (ℕ → Bool) → ℕ → List CreateItemInput → R → R
  unfolding invalidate_items
  invalidate_after_create deletes property items r = invalidate_items deletes property [] items r

  module _ (laws : IsRedis redis) where
    invalidated :
        (deletes : ℕ → Bool) (s : Scope) (arrival departure : ℕ) (r : R)
        → ((night : ℕ) → deletes night ≡ true)
        → (t : Scope) (m : ℕ)
        → cached redis decimal
            (invalidate_availability_cache redis decimal deletes s arrival departure r)
            t
            m
          ≡ (if s.property == t.property
                && s.room_type == t.room_type
                && in_set m (nights_between arrival departure)
              then none
              else cached redis decimal r t m)
    unfolding invalidate_availability_cache
    invalidated deletes s arrival departure r d t m =
        cached-delete_all redis decimal laws deletes s (nights_between arrival departure) r d t m

    cached-invalidate_items :
        (deletes : ℕ → Bool) (property : ℕ) (seen : List ℕ) (items : List CreateItemInput) (r : R)
        → ((night : ℕ) → deletes night ≡ true)
        → (t : Scope) (m : ℕ)
        → cached redis decimal (invalidate_items deletes property seen items r) t m ≡ (
            if property == t.property
              && not (is_seen t.room_type seen)
              && in_first t.room_type m (first_for t.room_type items)
            then none
            else cached redis decimal r t m)
    unfolding invalidate_items any_where find_where
    cached-invalidate_items deletes property seen [] r d t m = ground arith
    cached-invalidate_items deletes property seen (i ∷ items) r d t m =
        let s : Scope = record { property = property; room_type = i.room_type } in
        let r' = invalidate_availability_cache redis decimal deletes s i.arrival i.departure r in
        ground (
          arith,
          cached-invalidate_items deletes property seen items r d t m,
          cached-invalidate_items deletes property (i.room_type ∷ seen) items r' d t m,
          invalidated deletes s i.arrival i.departure r d t m,
        )

    -- After a creation whose deletions all succeed, the cache has lost, of each room type, the
    -- nights of the first item that asks for it, and nothing else: the nights of a later item of
    -- the same type stay.
    pub invalidate_after_create-first :
        (deletes : ℕ → Bool) (property : ℕ) (items : List CreateItemInput) (r : R)
        → ((night : ℕ) → deletes night ≡ true)
        → (t : Scope) (m : ℕ)
        → cached redis decimal (invalidate_after_create deletes property items r) t m ≡ (
            if property == t.property && in_first t.room_type m (first_for t.room_type items)
            then none
            else cached redis decimal r t m)
    unfolding invalidate_after_create any_where
    invalidate_after_create-first deletes property items r d t m =
        ground (arith, cached-invalidate_items deletes property [] items r d t m)
