-- ===== src/Prelude/Dict.antt =====
-- Maps from texts, as association lists in which a key stands once.
use text.Mathlib.Text.{◌==◌ as str_eq}
use text.Mathlib.TextEquality.{eq_iff}
use Prim.Native.String.{String}
use mathlib.Core.Path.{◌≡◌, refl}
use mathlib.Core.Bool.{Bool, false, ◌||◌}
use mathlib.Core.Option.{Option, none, some}
use mathlib.Core.List.{List, [], ◌∷◌, map}
use native.Mathlib.Omega.{arith}
use yop_pms.Prelude.Tests.{if◌then◌else◌, coalesce}

abbrev pub Dict {ℓ} : Type ℓ → Type ℓ
Dict V = List (String × V)

abbrev pub contains_text : String → List String → Bool
contains_text s [] = false
contains_text s (t ∷ ts) = str_eq s t || contains_text s ts

module _ {ℓ} {V : Type ℓ} where
  unfoldable pub lookup : String → Dict V → Option V
  lookup k [] = none
  lookup k (e ∷ d) = if str_eq k e.0 then some e.1 else lookup k d

  unfoldable pub keys : Dict V → List String
  keys d = map (λ e. e.0) d

  -- The entry of a key, made from `fresh` where there is none, and then changed.
  unfoldable pub modify : String → V → (V → V) → Dict V → Dict V
  modify k fresh f [] = (k, f fresh) ∷ []
  modify k fresh f (e ∷ d) =
      let rest = modify k fresh f d in if str_eq k e.0 then (e.0, f e.1) ∷ d else e ∷ rest

  pub lookup-modify :
      (j k : String) (fresh : V) (f : V → V) (d : Dict V)
      → lookup j (modify k fresh f d)
        ≡ (if str_eq j k then some (f (coalesce (lookup k d) fresh)) else lookup j d)
  unfolding lookup modify
  lookup-modify j k fresh f [] = refl
  lookup-modify j k fresh f (e ∷ d) =
      ground (arith, eq_iff j k, eq_iff j e.0, eq_iff k e.0, lookup-modify j k fresh f d)
