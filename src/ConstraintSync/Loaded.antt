-- ===== src/ConstraintSync/Loaded.antt =====
-- What the server has of a map of rules, once it has read the file.
use yop_pms.Prelude.{
  ◌≡◌, String, Bool, true, Option, none, some, List, [], ◌∷◌, if◌then◌else◌, arith, ◌&&◌,
}
use yop_pms.Prelude.Dict.{Dict, lookup, keys}
use yop_pms.ConstraintSync.{
  SubField, FieldConstraint, Comparison, TableEntry, ConstraintMap, is_empty,
}
use yop_pms.ConstraintSync.Yaml.{unless_empty}
use yop_pms.ConstraintSync.Reader.{Field, Entry, distinct, all_plain}

-- The tags of the types that the file is read into.
abbrev pub tags : List String
tags =
    "constraints" ∷ "fields" ∷ "comparisons" ∷ "notes" ∷ "field" ∷ "operator" ∷ "other" ∷ "required"
    ∷ "required_with" ∷ "valid_range" ∷ "max_length" ∷ "min_length" ∷ "exact_length" ∷ "min" ∷ "max"
    ∷ "pattern" ∷ "jsonb" ∷ []

-- A field's rules as the server has them, and none where there is nothing to check.
unfoldable pub loaded_field : FieldConstraint → Field
unfolding lookup
loaded_field fc = record {
  required = fc.required;
  max_length = fc.max_length;
  min_length = fc.min_length;
  exact_length = fc.exact_length;
  min = fc.min;
  max = fc.max;
  pattern = fc.pattern;
  required_with = fc.required_with;
  valid_range = fc.valid_range;
  jsonb = λ k. lookup k fc.jsonb;
}

abbrev pub unless_blank : Option FieldConstraint → Option Field
unless_blank none = none
unless_blank (some fc) = if is_empty fc then none else some (loaded_field fc)

unfoldable pub loaded_entry : TableEntry → Entry
unfolding lookup is_empty loaded_field
loaded_entry entry = record {
  fields = λ f. unless_blank (lookup f entry.fields);
  comparisons = entry.comparisons;
  notes = entry.notes;
}

abbrev pub no_rules : Entry
no_rules = record { fields = λ f. none; comparisons = []; notes = [] }

-- Every value of a map has a property.
abbrev pub every_value : {V : Type 0} → (V → Bool) → Dict V → Bool
every_value p [] = true
every_value p (e ∷ d) = p e.1 && every_value p d

pub every_value-lookup :
    {V : Type 0} (p : V → Bool) (d : Dict V) (k : String) (v : V)
    → every_value p d ≡ true
    → lookup k d ≡ some v
    → p v ≡ true
unfolding lookup
every_value-lookup p [] k v h e = cc
every_value-lookup p (x ∷ d) k v h e = ground (arith, every_value-lookup p d k v)

abbrev pub every : {A : Type 0} → (A → Bool) → List A → Bool
every p [] = true
every p (x ∷ xs) = p x && every p xs

module _ (plain : String → Bool) where
  abbrev pub plain_option : Option String → Bool
  plain_option none = true
  plain_option (some s) = plain s

  abbrev pub plain_sub_field : SubField → Bool
  plain_sub_field sf = plain_option sf.pattern

  abbrev pub plain_field : FieldConstraint → Bool
  plain_field fc =
      plain_option fc.pattern
      && plain_option (unless_empty fc.required_with)
      && distinct (keys fc.jsonb)
      && all_plain plain (keys fc.jsonb)
      && every_value plain_sub_field fc.jsonb

  abbrev pub plain_comparison : Comparison → Bool
  plain_comparison cmp = plain cmp.field && plain cmp.operator && plain cmp.other

  abbrev pub plain_entry : TableEntry → Bool
  plain_entry entry =
      distinct (keys entry.fields)
      && all_plain plain (keys entry.fields)
      && every_value plain_field entry.fields
      && every plain_comparison entry.comparisons
      && all_plain plain entry.notes

  -- A map whose keys stand once, with plain texts only.
  unfoldable pub is_plain : ConstraintMap → Bool
  unfolding keys
  is_plain cm = distinct (keys cm) && all_plain plain (keys cm) && every_value plain_entry cm
