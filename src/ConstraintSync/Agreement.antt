-- ===== src/ConstraintSync/Agreement.antt =====
-- The two files of rules: what the web client has and what the server has.
use Prim.Native.String.{◌++◌ as append, len}
use text.Mathlib.Text.{◌==◌ as str_eq}
use text.Mathlib.TextEquality.{eq_iff}
use text.Mathlib.TextPositions.{len-append, eq_refl}
use mathlib.Core.List.{Permᴰ}
use yop_pms.Prelude.{
  is_nil, ◌≡◌, refl, sym, ◌∙◌, ap, String, Bool, true, false, Option, none, some, List, [], ◌∷◌,
  map, arith, inl, inr, Bool-cases, Option-cases, ◌&&◌, not, is_none, All, ◌<◌,
}
use yop_pms.Prelude.Dict.{Dict, lookup, keys, contains_text}
use yop_pms.Availability.{ℤ}
use yop_pms.ConstraintSync.{SubField, FieldConstraint, TableEntry, ConstraintMap, is_empty}
use yop_pms.ConstraintSync.Yaml.{
  Node, present, written, field_at, entry_at, unless_empty, filled, comparison_node, text_node,
  listed,
}
use yop_pms.ConstraintSync.Written.{contains_text-perm, lookup-present_key}
use yop_pms.ConstraintSync.Typescript.{
  TsField, TsTable, join_comma, parts_of, when_true, formatted, slashed, build_ts_props, ts_field,
  ts_fields, ts_table, write_ts, gathered, ts_key, ts_keys, field_parts,
}

-- A part that is not empty.
abbrev IsSolid : Option String → Type 0
IsSolid none = Unit
IsSolid (some p) = 0 < len p

abbrev all_none : List (Option String) → Bool
all_none [] = true
all_none (p ∷ ps) = is_none p && all_none ps

solid : (p : String) → 0 < len p → str_eq p "" ≡ false
solid p h = elim (Bool-cases (str_eq p "")) [
  | inl e ↦ absurd (let l : len p ≡ 0 = ap len ((eq_iff p "").0 e) in omega arith)
  | inr e ↦ e
]

join_comma-solid :
    (p : String) (ps : List String) → 0 < len p → str_eq (join_comma (p ∷ ps)) "" ≡ false
unfolding join_comma
join_comma-solid p [] h = solid p h
join_comma-solid p (q ∷ ps) h =
    let rest = append ", " (join_comma (q ∷ ps)) in
    solid (append p rest) (omega (arith, len-append p rest))

join_comma-parts :
    (ps : List (Option String))
    → All IsSolid ps
    → str_eq (join_comma (parts_of ps)) "" ≡ all_none ps
unfolding parts_of join_comma
join_comma-parts [] h = refl
join_comma-parts (none ∷ ps) h = join_comma-parts ps h.1
join_comma-parts (some p ∷ ps) h = join_comma-solid p (parts_of ps) h.0

is_none-formatted :
    {A : Type 0} (prefix : String) (f : A → String) (o : Option A)
    → is_none (formatted prefix f o) ≡ is_none o
is_none-formatted prefix f none = refl
is_none-formatted prefix f (some a) = refl

is_none-when_true : (b : Bool) (p : String) → is_none (when_true b p) ≡ not b
is_none-when_true true p = refl
is_none-when_true false p = refl

is_none-unless_empty : (s : String) → is_none (unless_empty s) ≡ str_eq s ""
is_none-unless_empty s = ground arith

formatted-IsSolid :
    {A : Type 0} (prefix : String) (f : A → String) (o : Option A)
    → 0 < len prefix
    → IsSolid (formatted prefix f o)
formatted-IsSolid prefix f none h = tt
formatted-IsSolid prefix f (some a) h = omega (arith, len-append prefix (f a))

when_true-IsSolid : (b : Bool) (p : String) → 0 < len p → IsSolid (when_true b p)
when_true-IsSolid true p h = h
when_true-IsSolid false p h = tt

module _ (itoa : ℤ → String) (quote : String → String) where
  -- The properties of a field are empty exactly if it has nothing but keys of a JSON column.
  build_ts_props-empty :
      (fc : FieldConstraint)
      → (str_eq (build_ts_props itoa quote fc) "" && is_nil fc.jsonb) ≡ is_empty fc
  unfolding build_ts_props is_empty
  build_ts_props-empty fc = ground (
    arith,
    join_comma-parts (field_parts itoa quote fc) (
      when_true-IsSolid fc.required "required: true" (omega arith),
      (
        formatted-IsSolid "requiredWith: " quote (unless_empty fc.required_with) (omega arith),
        (
          when_true-IsSolid fc.valid_range "validRange: true" (omega arith),
          (
            formatted-IsSolid "maxLength: " itoa fc.max_length (omega arith),
            (
              formatted-IsSolid "minLength: " itoa fc.min_length (omega arith),
              (
                formatted-IsSolid "exactLength: " itoa fc.exact_length (omega arith),
                (
                  formatted-IsSolid "min: " itoa fc.min (omega arith),
                  (
                    formatted-IsSolid "max: " itoa fc.max (omega arith),
                    (formatted-IsSolid "pattern: " slashed fc.pattern (omega arith), tt),
                  ),
                ),
              ),
            ),
          ),
        ),
      ),
    ),
    is_none-when_true fc.required "required: true",
    is_none-formatted "requiredWith: " quote (unless_empty fc.required_with),
    is_none-unless_empty fc.required_with,
    is_none-when_true fc.valid_range "validRange: true",
    is_none-formatted "maxLength: " itoa fc.max_length,
    is_none-formatted "minLength: " itoa fc.min_length,
    is_none-formatted "exactLength: " itoa fc.exact_length,
    is_none-formatted "min: " itoa fc.min,
    is_none-formatted "max: " itoa fc.max,
    is_none-formatted "pattern: " slashed fc.pattern,
  )

-- A loop over keys gathers what a list of pairs presents, if the two leave out the same keys.
gathered-present :
    {A : Type 0} (name : A → String) (f : String → Option A) (g : String → Option Node)
    → ((k : String) → is_none (f k) ≡ is_none (g k))
    → ((k : String) (a : A) → f k ≡ some a → name a ≡ k)
    → (ks : List String) → map name (gathered f ks) ≡ keys (present (map (λ k. (k, g k)) ks))
unfolding present keys
gathered-present name f g h n [] = refl
gathered-present name f g h n (k ∷ ks) = elim (Option-cases (f k)) [
  | inl e ↦ ground (arith, e, h k, gathered-present name f g h n ks)
  | inr (a, e) ↦ ground (arith, e, h k, n k a e, gathered-present name f g h n ks)
]

filled_three :
    (w : List (String × Option Node)) (cmps notes : List Node)
    → is_none (
        filled (("fields", filled w) ∷ ("comparisons", listed cmps) ∷ ("notes", listed notes) ∷ []))
      ≡ (is_nil (present w) && is_nil cmps && is_nil notes)
unfolding present
filled_three w [] [] = ground arith
filled_three w [] (n ∷ notes) = ground arith
filled_three w (c ∷ cmps) [] = ground arith
filled_three w (c ∷ cmps) (n ∷ notes) = ground arith

is_nil-map : {A B : Type 0} (f : A → B) (xs : List A) → is_nil (map f xs) ≡ is_nil xs
is_nil-map f [] = refl
is_nil-map f (x ∷ xs) = refl

is_nil-perm : {as_ bs : List String} → Permᴰ as_ bs → is_nil as_ ≡ is_nil bs
is_nil-perm Permᴰ.nil = refl
is_nil-perm (Permᴰ.cons e d) = refl
is_nil-perm (Permᴰ.swap e f) = refl
is_nil-perm (Permᴰ.trans d f) = is_nil-perm d ∙ is_nil-perm f

module _ (itoa : ℤ → String) (quote : String → String) (sort : List String → List String)
    (sorts : (ks : List String) → Permᴰ (sort ks) ks) where
  ts_keys_of :
      (jsonb : Dict SubField) (ks : List String)
      → ((k : String) → contains_text k ks ≡ true → contains_text k (keys jsonb) ≡ true)
      → is_nil (gathered (λ k. ts_key itoa quote k (lookup k jsonb)) ks) ≡ is_nil ks
  ts_keys_of jsonb [] h = refl
  ts_keys_of jsonb (k ∷ ks) h = ground (arith, eq_refl k, h k, lookup-present_key k jsonb)

  is_nil-ts_keys : (jsonb : Dict SubField) → is_nil (ts_keys itoa quote sort jsonb) ≡ is_nil jsonb
  unfolding keys
  is_nil-ts_keys jsonb =
      ts_keys_of jsonb (sort (keys jsonb))
        (λ k h. ground (arith, h, contains_text-perm k (sorts (keys jsonb))))
      ∙ is_nil-perm (sorts (keys jsonb))
      ∙ is_nil-map (λ e. e.0) jsonb

  ts_field-agrees :
      (f : String) (o : Option FieldConstraint)
      → is_none (ts_field itoa quote sort f o) ≡ is_none (field_at itoa sort o)
  ts_field-agrees f none = refl
  ts_field-agrees f (some fc) =
      ground (arith, build_ts_props-empty itoa quote fc, is_nil-ts_keys fc.jsonb)

  ts_field-name :
      (f : String) (o : Option FieldConstraint) (a : TsField)
      → ts_field itoa quote sort f o ≡ some a
      → a.name ≡ f
  ts_field-name f none a e = cc
  ts_field-name f (some fc) a e = ground (arith, e)

  ts_fields-agree :
      (entry : TableEntry)
      → map (λ (t : TsField). t.name) (ts_fields itoa quote sort entry)
        ≡ keys (present (written sort (field_at itoa sort) entry.fields))
  ts_fields-agree entry =
      gathered-present (λ (t : TsField). t.name)
        (λ f. ts_field itoa quote sort f (lookup f entry.fields))
        (λ f. field_at itoa sort (lookup f entry.fields))
        (λ f. ts_field-agrees f (lookup f entry.fields))
        (λ f a e. ts_field-name f (lookup f entry.fields) a e) (sort (keys entry.fields))

  is_nil-ts_fields :
      (entry : TableEntry)
      → is_nil (ts_fields itoa quote sort entry)
        ≡ is_nil (present (written sort (field_at itoa sort) entry.fields))
  unfolding keys
  is_nil-ts_fields entry =
      sym (is_nil-map (λ (t : TsField). t.name) (ts_fields itoa quote sort entry))
      ∙ ap is_nil (ts_fields-agree entry)
      ∙ is_nil-map (λ e. e.0) (present (written sort (field_at itoa sort) entry.fields))

  ts_table-agrees :
      (key : String) (o : Option TableEntry)
      → is_none (ts_table itoa quote sort key o) ≡ is_none (entry_at itoa sort o)
  unfolding present
  ts_table-agrees key none = refl
  ts_table-agrees key (some entry) = ground (
    arith,
    is_nil-ts_fields entry,
    filled_three (written sort (field_at itoa sort) entry.fields)
        (map comparison_node entry.comparisons) (map text_node entry.notes),
    is_nil-map comparison_node entry.comparisons,
    is_nil-map text_node entry.notes,
  )

  ts_table-name :
      (key : String) (o : Option TableEntry) (a : TsTable)
      → ts_table itoa quote sort key o ≡ some a
      → a.name ≡ key
  ts_table-name key none a e = cc
  ts_table-name key (some entry) a e = ground (arith, e)

  -- The two files list the same tables, and for each table the same fields, in the same order.
  pub write_ts-agrees :
      (cm : ConstraintMap)
      → (map (λ (t : TsTable). t.name) (write_ts itoa quote sort cm)
          ≡ keys (present (written sort (entry_at itoa sort) cm)))
        × ((entry : TableEntry)
            → map (λ (t : TsField). t.name) (ts_fields itoa quote sort entry)
              ≡ keys (present (written sort (field_at itoa sort) entry.fields)))
  unfolding write_ts
  write_ts-agrees cm = (
    gathered-present (λ (t : TsTable). t.name) (λ key. ts_table itoa quote sort key (lookup key cm))
        (λ key. entry_at itoa sort (lookup key cm)) (λ key. ts_table-agrees key (lookup key cm))
        (λ key a e. ts_table-name key (lookup key cm) a e) (sort (keys cm)),
    ts_fields-agree,
  )
