-- ===== src/ConstraintSync/Parens/Balance.antt =====
-- What taking the outer parentheses off a clause leaves of it.
use Prim.Native.String.{String, [], ◌∷◌, count}
use Prim.Native.Char.{Char}
use text.Mathlib.TextLemmas.{length-cons, length-nil}
use mathlib.Core.Option.{some-injective}
use yop_pms.Prelude.{
  subst, sym, ◌∙◌, ℕ, zero, suc, ◌+◌, ◌-◌, ◌≤◌, ◌≡◌, refl, Bool, true, false, not, ◌&&◌, none, some,
  ◌==◌, if◌then◌else◌, arith, inl, inr, Option-cases,
}
use yop_pms.ConstraintSync.Parens.{
  is_open, is_close, deficit_loop, paren_deficit, drop_close, unwrap, strip_once, strip_loop,
  strip_outer_parens,
}

-- At a depth of `n`, every parenthesis of a text has its partner.
unfoldable pub balanced : ℕ → String → Bool
balanced n [] = n == 0
balanced n (c ∷ s) =
    let next = if is_open c then n + 1 else if is_close c then n - 1 else n in
    not (is_close c && n == 0) && balanced next s

deficit_loop_grows :
    (s : String) (opens closes deficit : ℕ) → deficit ≤ deficit_loop s opens closes deficit
unfolding deficit_loop
deficit_loop_grows [] o c d = omega arith
deficit_loop_grows (x ∷ s) o c d = ground (
  arith,
  deficit_loop_grows s (o + 1) c d,
  deficit_loop_grows s o (c + 1) (c + 1 - o),
  deficit_loop_grows s o (c + 1) d,
  deficit_loop_grows s o c d,
)

if_some :
    (b : Bool) (s inner : String)
    → (if b then some s else none) ≡ some inner
    → (b ≡ true) × (s ≡ inner)
if_some true s inner e = (refl, some-injective s inner e)
if_some false s inner e = cc

drop_close-one :
    (x : Char) (inner : String)
    → drop_close (x ∷ []) ≡ some inner
    → (is_close x ≡ true) × ([] ≡ inner)
unfolding drop_close
drop_close-one x inner e = if_some (is_close x) [] inner e

balanced-one : (n : ℕ) (x : Char) → is_close x ≡ true → balanced (n + 1) (x ∷ []) ≡ balanced n []
unfolding balanced
balanced-one n x c = ground (arith, c)

drop_close-balanced :
    (s inner : String) (closes n : ℕ)
    → drop_close s ≡ some inner
    → deficit_loop inner (closes + n) closes 0 ≡ 0
    → balanced (n + 1) s ≡ true
    → balanced n inner ≡ true
unfolding drop_close deficit_loop balanced
drop_close-balanced [] inner c n e z b = cc
drop_close-balanced (x ∷ []) inner c n e z b =
    let p = drop_close-one x inner e in
    subst (λ t. balanced n t ≡ true) p.1 (sym (balanced-one n x p.0) ∙ b)
drop_close-balanced (x ∷ y ∷ s) inner c n e z b = elim (Option-cases (drop_close (y ∷ s))) [
  | inl i ↦ ground (arith, e, i)
  | inr (rest, i) ↦ ground (
    arith,
    e,
    i,
    z,
    b,
    deficit_loop_grows rest (c + n) (c + 1) (c + 1 - (c + n)),
    drop_close-balanced (y ∷ s) rest c (n + 1) i,
    drop_close-balanced (y ∷ s) rest (c + 1) (n - 1) i,
    drop_close-balanced (y ∷ s) rest c n i,
  )
]

drop_close-count : (s inner : String) → drop_close s ≡ some inner → count s ≡ count inner + 1
unfolding drop_close
drop_close-count [] inner e = cc
drop_close-count (x ∷ []) inner e =
    let p = drop_close-one x inner e in
    subst (λ t. count (x ∷ []) ≡ count t + 1) p.1 (omega (arith, length-cons x [], length-nil))
drop_close-count (x ∷ y ∷ s) inner e = elim (Option-cases (drop_close (y ∷ s))) [
  | inl i ↦ ground (arith, e, i)
  | inr (rest, i) ↦
      ground
        (arith, e, i, length-cons x (y ∷ s), length-cons x rest, drop_close-count (y ∷ s) rest i)
]

strip_once-inner :
    (s inner : String)
    → strip_once s ≡ some inner
    → (unwrap s ≡ some inner) × (paren_deficit inner ≡ 0)
unfolding strip_once
strip_once-inner s inner e = elim (Option-cases (unwrap s)) [
  | inl i ↦ ground (arith, e, i)
  | inr (rest, i) ↦ ground (arith, e, i)
]

unwrap-balanced :
    (s inner : String)
    → unwrap s ≡ some inner
    → paren_deficit inner ≡ 0
    → balanced 0 s ≡ true
    → balanced 0 inner ≡ true
unfolding unwrap paren_deficit balanced
unwrap-balanced [] inner e z b = cc
unwrap-balanced (x ∷ s) inner e z b = ground (arith, e, b, drop_close-balanced s inner 0 0)

unwrap-count : (s inner : String) → unwrap s ≡ some inner → count s ≡ count inner + 2
unfolding unwrap
unwrap-count [] inner e = cc
unwrap-count (x ∷ s) inner e = ground (arith, e, length-cons x s, drop_close-count s inner)

unwrap-nil : (s : String) → count s ≡ 0 → strip_once s ≡ none
unfolding strip_once unwrap
unwrap-nil [] h = refl
unwrap-nil (x ∷ s) h = absurd (omega (arith, length-cons x s))

module _ (trim_space : String → String) (shortens : (s : String) → count (trim_space s) ≤ count s)
    (balances : (n : ℕ) (s : String) → balanced n (trim_space s) ≡ balanced n s) where
  strip_loop-strips :
      (fuel : ℕ) (s : String)
      → count s ≤ fuel
      → (strip_once (strip_loop trim_space fuel s) ≡ none)
        × (balanced 0 s ≡ true → balanced 0 (strip_loop trim_space fuel s) ≡ true)
  unfolding strip_loop
  strip_loop-strips zero s h = (unwrap-nil s (omega arith), λ b. b)
  strip_loop-strips (suc fuel) s h = elim (Option-cases (strip_once s)) [
    | inl e ↦ rw e (e, λ b. b)
    | inr (inner, e) ↦
        let p = strip_once-inner s inner e in
        let l : count (trim_space inner) ≤ fuel =
          omega (arith, shortens inner, unwrap-count s inner p.0) in
        let rest = strip_loop-strips fuel (trim_space inner) l in
        rw e (rest.0, λ b. rest.1 (balances 0 inner ∙ unwrap-balanced s inner p.0 p.1 b))
  ]

  -- The parentheses around a clause are taken off to the last: no round of the loop would find another pair; and
  -- a clause in which each parenthesis has its partner is left so.
  pub strip_outer_parens-strips :
      (s : String)
      → (strip_once (strip_outer_parens trim_space s) ≡ none)
        × (balanced 0 s ≡ true → balanced 0 (strip_outer_parens trim_space s) ≡ true)
  unfolding strip_outer_parens
  strip_outer_parens-strips s =
      let rest = strip_loop-strips (count s) (trim_space s) (shortens s) in
      (rest.0, λ b. rest.1 (balances 0 s ∙ b))
