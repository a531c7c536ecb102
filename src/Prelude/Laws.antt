-- ===== src/Prelude/Laws.antt =====
-- What a write by condition does to a read by condition.
use Prim.Native.Nat.{◌≤◌}
use mathlib.Core.Path.{◌≡◌, refl}
use mathlib.Core.Logic.{inl, inr}
use mathlib.Core.Bool.{Bool, true, false}
use mathlib.Core.Option.{some}
use mathlib.Core.List.{List, [], ◌∷◌, ◌++◌}
use native.Mathlib.Omega.{arith}
use yop_pms.Prelude.Tests.{if◌then◌else◌, Bool-cases}
use yop_pms.Prelude.Rows.{
  find_where, any_where, count_where, select_where, update_where, delete_where,
}

module _ {ℓ} {A : Type ℓ} where
  -- A write that touches no selected row, and selects none, leaves the selection as it was.
  pub select-update :
      (q p : A → Bool) (f : A → A) (xs : List A)
      → ((x : A) → p x ≡ true → (q x ≡ false) × (q (f x) ≡ false))
      → select_where q (update_where p f xs) ≡ select_where q xs
  unfolding select_where update_where
  select-update q p f [] h = refl
  select-update q p f (x ∷ xs) h = elim (Bool-cases (p x)) [
    | inl e ↦ rw e (ground (arith, h x e, select-update q p f xs h))
    | inr e ↦ rw e (ground (arith, select-update q p f xs h))
  ]

  pub select-delete :
      (q p : A → Bool) (xs : List A)
      → ((x : A) → p x ≡ true → q x ≡ false)
      → select_where q (delete_where p xs) ≡ select_where q xs
  unfolding select_where delete_where
  select-delete q p [] h = refl
  select-delete q p (x ∷ xs) h = ground (arith, h x, select-delete q p xs h)

  pub select-append :
      (q : A → Bool) (xs : List A) (x : A)
      → q x ≡ false
      → select_where q (xs ++ x ∷ []) ≡ select_where q xs
  unfolding select_where
  select-append q [] x h = ground arith
  select-append q (y ∷ xs) x h = ground (arith, select-append q xs x h)

  -- After a deletion no row meets a condition that implies the deletion's.
  pub any-delete :
      (q p : A → Bool) (xs : List A)
      → ((x : A) → q x ≡ true → p x ≡ true)
      → any_where q (delete_where p xs) ≡ false
  unfolding any_where delete_where
  any-delete q p [] h = refl
  any-delete q p (x ∷ xs) h = ground (arith, h x, any-delete q p xs h)

  -- A deletion takes no row into a condition.
  pub any-delete_le :
      (q p : A → Bool) (xs : List A)
      → any_where q xs ≡ false
      → any_where q (delete_where p xs) ≡ false
  unfolding any_where delete_where
  any-delete_le q p [] h = refl
  any-delete_le q p (x ∷ xs) h = ground (arith, any-delete_le q p xs)

  -- No row meets a condition after a write that clears it wherever it holds.
  pub any-update :
      (q p : A → Bool) (f : A → A) (xs : List A)
      → ((x : A) → p x ≡ true → q (f x) ≡ false)
      → ((x : A) → p x ≡ false → q x ≡ false)
      → any_where q (update_where p f xs) ≡ false
  unfolding any_where update_where
  any-update q p f [] h k = refl
  any-update q p f (x ∷ xs) h k = ground (arith, h x, k x, any-update q p f xs h k)

  -- The first row that meets a condition, after a write that keeps the condition as it is.
  pub find-update_some :
      (q p : A → Bool) (f : A → A) (xs : List A) (x : A)
      → ((y : A) → q (f y) ≡ q y)
      → find_where q xs ≡ some x
      → find_where q (update_where p f xs) ≡ some (if p x then f x else x)
  unfolding find_where update_where
  find-update_some q p f [] x h e = cc
  find-update_some q p f (y ∷ xs) x h e = ground (arith, h y, find-update_some q p f xs x h)

  -- A narrower condition counts fewer rows.
  pub count_le :
      (p k : A → Bool) (xs : List A)
      → ((x : A) → p x ≡ true → k x ≡ true)
      → count_where p xs ≤ count_where k xs
  unfolding count_where
  count_le p k [] h = omega arith
  count_le p k (x ∷ xs) h = ground (arith, h x, count_le p k xs h)

  pub count_of-find :
      (q k : A → Bool) (xs : List A) (x : A)
      → ((y : A) → q y ≡ true → k y ≡ true)
      → find_where q xs ≡ some x
      → 1 ≤ count_where k xs
  unfolding count_where find_where
  count_of-find q k [] x h e = cc
  count_of-find q k (y ∷ xs) x h e = ground (arith, h y, count_of-find q k xs x h)

  -- Where at most one row has a key, the row that one condition finds is the row that another one
  -- on the same key counts.
  pub find_unique :
      (q p k : A → Bool) (xs : List A) (x : A)
      → count_where k xs ≤ 1
      → ((y : A) → q y ≡ true → k y ≡ true)
      → ((y : A) → p y ≡ true → k y ≡ true)
      → find_where q xs ≡ some x
      → 1 ≤ count_where p xs
      → p x ≡ true
  unfolding count_where find_where
  find_unique q p k [] x u hq hp e m = cc
  find_unique q p k (y ∷ xs) x u hq hp e m =
      ground
        (arith, hq y, hp y, count_le p k xs hp, count_of-find q k xs x hq, find_unique q p k xs x)

  pub find_holds : (p : A → Bool) (xs : List A) (x : A) → find_where p xs ≡ some x → p x ≡ true
  unfolding find_where
  find_holds p [] x e = cc
  find_holds p (y ∷ xs) x e = ground (arith, find_holds p xs x)

  -- Where at most one row has a key, two conditions on the key find the same row.
  pub find-same :
      (q p k : A → Bool) (xs : List A) (x y : A)
      → count_where k xs ≤ 1
      → ((z : A) → q z ≡ true → k z ≡ true)
      → ((z : A) → p z ≡ true → k z ≡ true)
      → find_where q xs ≡ some x
      → find_where p xs ≡ some y
      → y ≡ x
  unfolding count_where find_where
  find-same q p k [] x y u hq hp e f = cc
  find-same q p k (z ∷ xs) x y u hq hp e f = ground (
    arith,
    hq z,
    hp z,
    count_of-find q k xs x hq,
    count_of-find p k xs y hp,
    find-same q p k xs x y,
  )
