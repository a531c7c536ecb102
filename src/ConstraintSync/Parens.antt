-- ===== src/ConstraintSync/Parens.antt =====
-- stripOuterParens and parenDepth of cmd/tools/sync-constraints/parse.go.
pub mod Balance
use Prim.Native.String.{String, [], ◌∷◌, count}
use Prim.Native.Char.{Char, code}
use text.Mathlib.TextLemmas.{length-cons, length-nil}
use yop_pms.Prelude.{
  ℕ, zero, suc, ◌+◌, ◌-◌, ◌*◌, ◌≤◌, ◌≡◌, refl, Bool, true, false, ◌&&◌, Option, none, some, ltb,
  ◌==◌, if◌then◌else◌, arith, inl, inr, Bool-cases, Option-cases, ◌⊎◌,
}

abbrev pub is_open : Char → Bool
is_open c = code c == 40

abbrev pub is_close : Char → Bool
is_close c = code c == 41

-- The loop of parenDepth: the depth is `opens` less `closes`, and `deficit` is the least depth so far, negated.
unfoldable pub deficit_loop : String → ℕ → ℕ → ℕ → ℕ
deficit_loop [] opens closes deficit = deficit
deficit_loop (c ∷ s) opens closes deficit =
    let opens' = if is_open c then opens + 1 else opens in
    let closes' = if is_close c then closes + 1 else closes in
    let deficit' =
      if is_close c && ltb (opens + deficit) closes' then closes' - opens else deficit in
    deficit_loop s opens' closes' deficit'

-- parenDepth, negated: it is never positive.
unfoldable pub paren_deficit : String → ℕ
unfolding deficit_loop
paren_deficit s = deficit_loop s 0 0 0

abbrev pub onto : Char → Option String → Option String
onto c none = none
onto c (some s) = some (c ∷ s)

-- A text without the ')' that ends it.
unfoldable pub drop_close : String → Option String
drop_close [] = none
drop_close (c ∷ []) = if is_close c then some [] else none
drop_close (c ∷ d ∷ s) = onto c (drop_close (d ∷ s))

-- The test of stripOuterParens' loop, with `inner`.
unfoldable pub unwrap : String → Option String
unfolding drop_close
unwrap [] = none
unwrap (c ∷ s) = if is_open c then drop_close s else none

abbrev pub kept_inner : Option String → Option String
kept_inner none = none
kept_inner (some inner) = if paren_deficit inner == 0 then some inner else none

-- A round of the loop: what is left to trim, if the round takes the parentheses off.
unfoldable pub strip_once : String → Option String
unfolding unwrap paren_deficit
strip_once s = kept_inner (unwrap s)

-- The loop goes on with what is inside, if the parentheses come off.
abbrev pub inside_or : Option String → String → (String → String) → String
inside_or none s next = s
inside_or (some inner) s next = next inner

module _ (trim_space : String → String) where
  unfoldable pub strip_loop : ℕ → String → String
  unfolding strip_once
  strip_loop zero s = s
  strip_loop (suc fuel) s = inside_or (strip_once s) s (λ inner. strip_loop fuel (trim_space inner))

  -- stripOuterParens. A round takes two characters off.
  unfoldable pub strip_outer_parens : String → String
  unfolding strip_once strip_loop
  strip_outer_parens s = strip_loop (count s) (trim_space s)
