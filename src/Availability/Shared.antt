-- ===== src/Availability/Shared.antt =====
-- The cache of `CheckAvailability` in internal/booking/availability.go as a state that requests share: what
-- fills and deletions leave of its agreement with the database, for every property and room type.
use yop_pms.Prelude.{
  ℕ, ◌≡◌, Bool, true, false, ◌&&◌, none, some, List, [], ◌∷◌, ◌==◌, if◌then◌else◌, any_where, arith,
  inl, inr, Bool-cases,
}
use yop_pms.Calendar.{date_of, nights_between, in_set}
use yop_pms.Store.{Db}
use yop_pms.Redis.{Redis, IsRedis}
use yop_pms.Availability.{
  ℤ, Decimal, Scope, available_on, key_of, cached, store_all, uncached, Faults, value_of, fill,
  check_availability, delete_all, invalidate_availability_cache,
}
use yop_pms.Availability.Coherence.{Coherent}
use yop_pms.Availability.Answers.{List-cases, value_of-available}

same_number :
    (db : Db) (s t : Scope) (d e : ℕ)
    → (s.property == t.property && s.room_type == t.room_type && d == e) ≡ true
    → available_on db t e ≡ available_on db s d
same_number db s t d e h = ground arith

module _ {V R : Type 0} (redis : Redis V R) (decimal : Decimal V) (laws : IsRedis redis) where
  -- Every property and room type is coherent.
  abbrev pub AllCoherent : Db → R → Type 0
  AllCoherent db r = (t : Scope) → Coherent redis decimal db t r

  set-AllCoherent :
      ((n : ℤ) → decimal.parse (decimal.print n) ≡ some n)
      → (db : Db) (s : Scope) (night : ℕ) (n : ℤ) (r : R) → n ≡ available_on db s (date_of night)
      → AllCoherent db r
      → AllCoherent db (redis.set (key_of redis decimal s night) (decimal.print n) r)
  set-AllCoherent p db s night n r e c t m = ground (
    arith,
    c t m,
    p n,
    same_number db s t (date_of night) (date_of m),
    laws.get-set_same (key_of redis decimal s night) (decimal.print n) r,
    laws.get-set_other (key_of redis decimal s night) (key_of redis decimal t m) (decimal.print n)
        r,
  )

  del-AllCoherent :
      (db : Db) (s : Scope) (night : ℕ) (r : R)
      → AllCoherent db r
      → AllCoherent db (redis.del (key_of redis decimal s night) r)
  del-AllCoherent db s night r c t m = ground (
    arith,
    c t m,
    laws.get-del_same (key_of redis decimal s night) r,
    laws.get-del_other (key_of redis decimal s night) (key_of redis decimal t m) r,
  )

  store_all-AllCoherent :
      ((n : ℤ) → decimal.parse (decimal.print n) ≡ some n)
      → (writes : ℕ → Bool) (db : Db) (s : Scope) (value : ℕ → ℤ) (missing : List ℕ) (r : R)
      → ((d : ℕ) → any_where (λ e. date_of e == d) missing ≡ true → value d ≡ available_on db s d)
      → AllCoherent db r
      → AllCoherent db (store_all redis decimal writes s value missing r)
  unfolding store_all any_where
  store_all-AllCoherent p writes db s value [] r v c = c
  store_all-AllCoherent p writes db s value (night ∷ missing) r v c =
      store_all-AllCoherent p writes db s value missing
        (if writes night
          then redis.set (key_of redis decimal s night) (decimal.print (value (date_of night))) r
          else r)
        (λ d h. v d (ground arith))
        (elim (Bool-cases (writes night)) [
          | inl w ↦ rw w (
              set-AllCoherent p db s night (value (date_of night)) r
                (v (date_of night) (ground arith)) c)
          | inr w ↦ rw w c
        ])

  fill-AllCoherent :
      ((n : ℤ) → decimal.parse (decimal.print n) ≡ some n)
      → (f : Faults) (db : Db) (r : R) (s : Scope) (start end : ℕ) → AllCoherent db r
      → AllCoherent db (fill redis decimal f db r s (nights_between start end)).store
  unfolding fill
  fill-AllCoherent p f db r s start end c t m = ground (
    arith,
    c t m,
    store_all-AllCoherent p f.writes db s (value_of redis decimal db r s (nights_between start end))
        (uncached redis decimal r s (nights_between start end)) r
        (value_of-available redis decimal db r s start end) c t m,
  )

  pub check_availability-AllCoherent :
      ((n : ℤ) → decimal.parse (decimal.print n) ≡ some n)
      → (f : Faults) (db : Db) (r : R) (s : Scope) (start end : ℕ) → AllCoherent db r
      → AllCoherent db (check_availability redis decimal f db r s start end).store
  unfolding check_availability
  check_availability-AllCoherent p f db r s start end c =
      elim (List-cases (uncached redis decimal r s (nights_between start end))) [
        | inl e ↦ rw e (λ t m. ground (arith, c t m))
        | inr (x, ys, e) ↦
            rw e (λ t m. ground (arith, c t m, fill-AllCoherent p f db r s start end c t m))
      ]

  pub cached-delete_all :
      (deletes : ℕ → Bool) (s : Scope) (nights : List ℕ) (r : R)
      → ((night : ℕ) → deletes night ≡ true)
      → (t : Scope) (m : ℕ)
      → cached redis decimal (delete_all redis decimal deletes s nights r) t m ≡ (
          if s.property == t.property && s.room_type == t.room_type && in_set m nights
          then none
          else cached redis decimal r t m)
  unfolding delete_all in_set any_where
  cached-delete_all deletes s [] r d t m = ground arith
  cached-delete_all deletes s (night ∷ nights) r d t m =
      let k = key_of redis decimal s night in
      rw (d night) (
        ground (
          arith,
          cached-delete_all deletes s nights (redis.del k r) d t m,
          laws.get-del_same k r,
          laws.get-del_other k (key_of redis decimal t m) r,
        ))

  -- Where a change of the tables leaves the numbers of a room type as they were outside a stay, and
  -- all other room types, the deletion of the stay's nights makes the cache agree with the tables
  -- again, if each deletion succeeds.
  pub invalidate_availability_cache-AllCoherent :
      (deletes : ℕ → Bool) (db db' : Db) (s : Scope) (arrival departure : ℕ) (r : R)
      → ((night : ℕ) → deletes night ≡ true)
      → ((t : Scope) (night : ℕ)
          → (s.property == t.property
              && s.room_type == t.room_type
              && in_set night (nights_between arrival departure))
            ≡ false
          → available_on db' t (date_of night) ≡ available_on db t (date_of night))
      → AllCoherent db r
      → AllCoherent db' (invalidate_availability_cache redis decimal deletes s arrival departure r)
  unfolding invalidate_availability_cache
  invalidate_availability_cache-AllCoherent deletes db db' s arrival departure r d h c t m =
      ground (
        arith,
        c t m,
        h t m,
        cached-delete_all deletes s (nights_between arrival departure) r d t m,
      )
