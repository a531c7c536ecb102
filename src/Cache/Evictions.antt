-- ===== src/Cache/Evictions.antt =====
-- What an invalidation leaves of the cache.
use text.Mathlib.TextEquality.{eq_iff}
use yop_pms.Prelude.{
  ℕ, ◌≡◌, refl, ap, String, Bool, true, false, ◌&&◌, ◌||◌, Option, none, some, List, [], ◌∷◌, ◌++◌,
  ◌==◌, if◌then◌else◌, select_where, is_nil, arith,
}
use yop_pms.Prelude.Dict.{contains_text}
use yop_pms.Cache.{
  Server, IsServer, Round, Invalidated, invalidated, invalidate, invalidate_if, drop_page,
  drop_some,
}

abbrev scanned_page : Option (List String × ℕ) → List String → List String
scanned_page none later = []
scanned_page (some (keys, cursor)) later = if cursor == 0 then keys else keys ++ later

-- The keys that a scan finds, up to its end.
unfoldable pub scanned : List Round → List String
scanned [] = []
scanned (round ∷ rounds) = scanned_page round.page (scanned rounds)

contains-append :
    (k : String) (as_ bs : List String)
    → contains_text k (as_ ++ bs) ≡ (contains_text k as_ || contains_text k bs)
contains-append k [] bs = refl
contains-append k (a ∷ as_) bs = ground (arith, contains-append k as_ bs)

pub contains-select :
    (p : String → Bool) (k : String) (ks : List String)
    → contains_text k (select_where p ks) ≡ (contains_text k ks && p k)
unfolding select_where
contains-select p k [] = refl
contains-select p k (j ∷ ks) = ground (arith, eq_iff k j, contains-select p k ks)

contains-nil : (k : String) (ks : List String) → is_nil ks ≡ true → contains_text k ks ≡ false
contains-nil k [] h = refl
contains-nil k (j ∷ ks) h = cc

module _ {V R : Type 0} (server : Server V R) (laws : IsServer server)
    (should_delete : String → Bool) where
  drop_some-get :
      (page : Option (List String × ℕ)) (deletes : Bool) (next : R → Invalidated × R)
      (later : List String) (k : String)
      → ((r : R)
          → (next r).0 ≡ invalidated
          → server.get k (next r).1
            ≡ (if contains_text k later && should_delete k then none else server.get k r))
      → (r : R) → (drop_some server should_delete page deletes next r).0 ≡ invalidated
      → server.get k (drop_some server should_delete page deletes next r).1 ≡ (
          if contains_text k (scanned_page page later) && should_delete k
          then none
          else server.get k r)
  drop_some-get none deletes next later k h r e = cc
  drop_some-get (some (keys, cursor)) deletes next later k h r e = ground (
    arith,
    e,
    h r,
    h (server.del (select_where should_delete keys) r),
    laws.get-del k (select_where should_delete keys) r,
    contains-select should_delete k keys,
    contains-nil k (select_where should_delete keys),
    contains-append k keys later,
  )

  pub invalidate_if-get :
      (rounds : List Round) (k : String) (r : R)
      → (invalidate_if server should_delete rounds r).0 ≡ invalidated
      → server.get k (invalidate_if server should_delete rounds r).1
        ≡ (if contains_text k (scanned rounds) && should_delete k then none else server.get k r)
  unfolding invalidate_if scanned
  invalidate_if-get [] k r e = cc
  invalidate_if-get (round ∷ rounds) k r e =
      drop_some-get round.page round.deletes (invalidate_if server should_delete rounds)
        (scanned rounds) k (invalidate_if-get rounds k) r e

select_all : (ks : List String) → select_where (λ k. true) ks ≡ ks
unfolding select_where
select_all [] = refl
select_all (k ∷ ks) = ap (λ l. k ∷ l) (select_all ks)

abbrev answered_page : Option (List String × ℕ) → Bool → Bool
answered_page none later = false
answered_page (some (keys, cursor)) later = cursor == 0 || later

-- The rounds of a scan that succeeds: every page comes and every deletion is done, up to the cursor 0.
unfoldable pub all_answered : List Round → Bool
all_answered [] = false
all_answered (round ∷ rounds) = round.deletes && answered_page round.page (all_answered rounds)

module _ {V R : Type 0} (server : Server V R) (laws : IsServer server) where
  drop_page-some :
      (page : Option (List String × ℕ)) (deletes : Bool) (next next' : R → Invalidated × R)
      → ((r : R) → next r ≡ next' r)
      → (r : R)
      → drop_page server page deletes next r ≡ drop_some server (λ k. true) page deletes next' r
  drop_page-some none deletes next next' h r = refl
  drop_page-some (some (keys, cursor)) deletes next next' h r =
      ground (arith, h r, h (server.del keys r), select_all keys)

  -- An invalidation without a condition is one whose condition always holds.
  pub invalidate-if_true :
      (rounds : List Round) (r : R)
      → invalidate server rounds r ≡ invalidate_if server (λ k. true) rounds r
  unfolding invalidate invalidate_if
  invalidate-if_true [] r = refl
  invalidate-if_true (round ∷ rounds) r =
      drop_page-some round.page round.deletes (invalidate server rounds)
        (invalidate_if server (λ k. true) rounds) (invalidate-if_true rounds) r

  drop_some-ends :
      (should_delete : String → Bool) (page : Option (List String × ℕ)) (next : R → Invalidated × R)
      (later : Bool)
      → ((r : R) → later ≡ true → (next r).0 ≡ invalidated)
      → (r : R) → answered_page page later ≡ true
      → (drop_some server should_delete page true next r).0 ≡ invalidated
  drop_some-ends should_delete none next later h r e = cc
  drop_some-ends should_delete (some (keys, cursor)) next later h r e =
      ground (arith, e, h r, h (server.del (select_where should_delete keys) r))

  pub invalidate_if-ends :
      (should_delete : String → Bool) (rounds : List Round) (r : R)
      → all_answered rounds ≡ true
      → (invalidate_if server should_delete rounds r).0 ≡ invalidated
  unfolding invalidate_if all_answered
  invalidate_if-ends should_delete [] r e = cc
  invalidate_if-ends should_delete (round ∷ rounds) r e = ground (
    arith,
    e,
    drop_some-ends should_delete round.page (invalidate_if server should_delete rounds)
        (all_answered rounds) (invalidate_if-ends should_delete rounds) r,
  )
