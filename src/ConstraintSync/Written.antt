-- ===== src/ConstraintSync/Written.antt =====
-- What stands in a mapping of the tree that the tool writes: its keys, and the value of each.
use text.Mathlib.Text.{◌==◌ as str_eq}
use text.Mathlib.TextEquality.{eq_iff}
use mathlib.Core.List.{Permᴰ}
use yop_pms.Prelude.{
  is_none, ◌≡◌, refl, ◌∙◌, String, Bool, true, false, Option, none, some, List, [], ◌∷◌, map,
  if◌then◌else◌, arith, inl, inr, ◌⊎◌,
}
use yop_pms.Prelude.Dict.{Dict, lookup, keys, contains_text}
use yop_pms.ConstraintSync.Yaml.{Node, present, mapping_of, filled, written}
use yop_pms.ConstraintSync.Reader.{Decoder, IsDecoder, distinct, all_plain}

abbrev pub names : List (String × Option Node) → List String
names ps = map (λ p. p.0) ps

-- The value that a list of pairs has for a key.
abbrev pub first_of : String → List (String × Option Node) → Option Node
first_of k [] = none
first_of k (p ∷ ps) = if str_eq k p.0 then p.1 else first_of k ps

present-absent :
    (k : String) (ps : List (String × Option Node))
    → contains_text k (names ps) ≡ false
    → (contains_text k (keys (present ps)) ≡ false) × (lookup k (present ps) ≡ none)
unfolding present keys lookup
present-absent k [] h = (refl, refl)
present-absent k ((j, none) ∷ ps) h = ground (arith, present-absent k ps)
present-absent k ((j, some v) ∷ ps) h = ground (arith, present-absent k ps)

present-distinct :
    (ps : List (String × Option Node))
    → distinct (names ps) ≡ true
    → distinct (keys (present ps)) ≡ true
unfolding present keys
present-distinct [] h = refl
present-distinct ((j, none) ∷ ps) h = ground (arith, present-distinct ps)
present-distinct ((j, some v) ∷ ps) h = ground (arith, present-distinct ps, present-absent j ps)

present-plain :
    (plain : String → Bool) (ps : List (String × Option Node))
    → all_plain plain (names ps) ≡ true
    → all_plain plain (keys (present ps)) ≡ true
unfolding present keys
present-plain plain [] h = refl
present-plain plain ((j, none) ∷ ps) h = ground (arith, present-plain plain ps)
present-plain plain ((j, some v) ∷ ps) h = ground (arith, present-plain plain ps)

pub lookup-present :
    (k : String) (ps : List (String × Option Node))
    → distinct (names ps) ≡ true
    → lookup k (present ps) ≡ first_of k ps
unfolding present lookup
lookup-present k [] h = refl
lookup-present k ((j, none) ∷ ps) h =
    ground (arith, eq_iff k j, lookup-present k ps, present-absent k ps)
lookup-present k ((j, some v) ∷ ps) h = ground (arith, lookup-present k ps)

pub lookup-present_key :
    {V : Type 0} (k : String) (d : Dict V)
    → contains_text k (keys d) ≡ true
    → is_none (lookup k d) ≡ false
unfolding keys lookup
lookup-present_key k [] h = cc
lookup-present_key k (e ∷ d) h = ground (arith, lookup-present_key k d)

pub lookup-absent :
    {V : Type 0} (k : String) (d : Dict V) → contains_text k (keys d) ≡ false → lookup k d ≡ none
unfolding keys lookup
lookup-absent k [] h = refl
lookup-absent k (e ∷ d) h = ground (arith, lookup-absent k d)

first_of-map :
    (k : String) (g : String → Option Node) (ks : List String)
    → first_of k (map (λ j. (j, g j)) ks) ≡ (if contains_text k ks then g k else none)
first_of-map k g [] = refl
first_of-map k g (j ∷ ks) = ground (arith, eq_iff k j, first_of-map k g ks)

names-map : (g : String → Option Node) (ks : List String) → names (map (λ j. (j, g j)) ks) ≡ ks
names-map g [] = refl
names-map g (j ∷ ks) = ground (arith, names-map g ks)

pub contains_text-perm :
    (k : String) {as_ bs : List String} → Permᴰ as_ bs → contains_text k as_ ≡ contains_text k bs
contains_text-perm k Permᴰ.nil = refl
contains_text-perm k (Permᴰ.cons e d) = rw e (ground (arith, contains_text-perm k d))
contains_text-perm k (Permᴰ.swap e f) = rw (e, f) (ground arith)
contains_text-perm k (Permᴰ.trans d f) = contains_text-perm k d ∙ contains_text-perm k f

distinct-perm : {as_ bs : List String} → Permᴰ as_ bs → distinct as_ ≡ distinct bs
distinct-perm Permᴰ.nil = refl
distinct-perm (Permᴰ.cons {a = a} {b = b} e d) =
    rw e (ground (arith, distinct-perm d, contains_text-perm b d))
distinct-perm (Permᴰ.swap {a' = a'} {b' = b'} e f) =
    rw (e, f) (ground (arith, eq_iff a' b', eq_iff b' a'))
distinct-perm (Permᴰ.trans d f) = distinct-perm d ∙ distinct-perm f

all_plain-perm :
    (plain : String → Bool) {as_ bs : List String}
    → Permᴰ as_ bs
    → all_plain plain as_ ≡ all_plain plain bs
all_plain-perm plain Permᴰ.nil = refl
all_plain-perm plain (Permᴰ.cons e d) = rw e (ground (arith, all_plain-perm plain d))
all_plain-perm plain (Permᴰ.swap e f) = rw (e, f) (ground arith)
all_plain-perm plain (Permᴰ.trans d f) = all_plain-perm plain d ∙ all_plain-perm plain f

List-cases : {A : Type 0} (xs : List A) → (xs ≡ []) ⊎ ((x : A) × (r : List A) × (xs ≡ x ∷ r))
List-cases [] = inl refl
List-cases (x ∷ r) = inr (x, r, refl)

module _ (d : Decoder) where
  -- What it finds below a node that may be absent.
  abbrev pub at_key : String → Option Node → Option Node
  at_key k none = none
  at_key k (some n) = d.value_at k n

module _ (d : Decoder) (laws : IsDecoder d) where
  -- What the decoder finds in a mapping.
  pub value_at-mapping :
      (k : String) (ps : List (String × Option Node))
      → distinct (names ps) ≡ true
      → all_plain d.plain (names ps) ≡ true
      → d.value_at k (mapping_of ps) ≡ first_of k ps
  value_at-mapping k ps h p =
      laws.value_at_lem k (present ps) (present-distinct ps h) (present-plain d.plain ps p)
      ∙ lookup-present k ps h

  pub at_key-filled :
      (k : String) (ps : List (String × Option Node))
      → distinct (names ps) ≡ true
      → all_plain d.plain (names ps) ≡ true
      → at_key d k (filled ps) ≡ first_of k ps
  unfolding lookup
  at_key-filled k ps h p = elim (List-cases (present ps)) [
    | inl e ↦ ground (arith, e, lookup-present k ps h)
    | inr (x, r, e) ↦ ground (arith, e, value_at-mapping k ps h p)
  ]

-- `sort` is sort.Strings, which moves its texts and no more.
module _ (sort : List String → List String) (sorts : (ks : List String) → Permᴰ (sort ks) ks) where
  pub first_of-written :
      {V : Type 0} (k : String) (f : Option V → Option Node) (d : Dict V)
      → f none ≡ none
      → first_of k (written sort f d) ≡ f (lookup k d)
  first_of-written k f d h = ground (
    arith,
    h,
    lookup-absent k d,
    contains_text-perm k (sorts (keys d)),
    first_of-map k (λ j. f (lookup j d)) (sort (keys d)),
  )

  pub written-distinct :
      {V : Type 0} (f : Option V → Option Node) (d : Dict V)
      → distinct (keys d) ≡ true
      → distinct (names (written sort f d)) ≡ true
  written-distinct f d h =
      rw (names-map (λ j. f (lookup j d)) (sort (keys d))) (distinct-perm (sorts (keys d)) ∙ h)

  pub written-plain :
      {V : Type 0} (plain : String → Bool) (f : Option V → Option Node) (d : Dict V)
      → all_plain plain (keys d) ≡ true
      → all_plain plain (names (written sort f d)) ≡ true
  written-plain plain f d h =
      rw (names-map (λ j. f (lookup j d)) (sort (keys d)))
        (all_plain-perm plain (sorts (keys d)) ∙ h)
