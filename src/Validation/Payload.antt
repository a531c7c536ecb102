-- ===== src/Validation/Payload.antt =====
-- The walk of internal/platform/validation/validate.go over a payload, which is a struct.
use Prim.Native.String.{slice}
use text.Mathlib.Text.{◌==◌ as str_eq, find?}
use yop_pms.Prelude.{
  ℕ, ◌+◌, String, Bool, true, false, not, ◌&&◌, Option, none, some, List, [], ◌∷◌, ◌++◌,
  if◌then◌else◌,
}
use yop_pms.Prelude.Dict.{Dict, lookup}
use yop_pms.Availability.{ℤ}
use yop_pms.Validation.{
  Value, text_value, signed_value, FieldValue, nil_pointer, present, Rules, Violation, is_required,
  no_match, below, above, Checked, violations, panics, is_zero, ltb_ℤ, breaks, bound, check_field,
}

-- What reflection finds of a field's declaration: whether it is exported, its json tag, its constraints tag, if it
-- has one, and whether it is a slice.
pub record Declared : Type 0 where
  pub is_exported : Bool
  pub json_tag : String
  pub constraints_tag : Option String
  pub is_slice : Bool

-- A struct, by its fields, each with its value and, for a slice of structs, its elements: structs, behind
-- pointers or not, and nil pointers.
mutual
  pub data Struct : Type 0 where
    no_fields : Struct
    field : Declared → FieldValue → Elements → Struct → Struct

  pub data Elements : Type 0 where
    no_elements : Elements
    nil_element : Elements → Elements
    struct_element : Struct → Elements → Elements

-- constraints.JsonbSubField, and the rules of a table: constraints.Field and TableEntry
pub record SubRules : Type 0 where
  pub required : Bool
  pub pattern : Option String
  pub min : Option ℤ
  pub max : Option ℤ

pub record ColumnRules : Type 0 where
  pub rules : Rules
  pub jsonb : Dict SubRules

abbrev pub TableRules : Type 0
TableRules = Dict ColumnRules

-- An error: of a field, or of an element of a slice, with its own joined into one.
mutual
  pub data Problem : Type 0 where
    of_field : String → Violation → Problem
    of_element : String → ℕ → Problems → Problem

  pub data Problems : Type 0 where
    no_problems : Problems
    ◌▹◌ : Problem → Problems → Problems

infixr 40 ◌▹◌
-- What a walk comes to.
pub data Walked : Type 0 where
  found : Problems → Walked
  walk_panics : Walked

abbrev joined : Problems → Problems → Problems
joined no_problems qs = qs
joined (p ▹ ps) qs = p ▹ joined ps qs

-- append(errs, ...)
abbrev pub both : Walked → Walked → Walked
both (found ps) (found qs) = found (joined ps qs)
both (found ps) walk_panics = walk_panics
both walk_panics w = walk_panics

abbrev problems_of : String → List Violation → Problems
problems_of name [] = no_problems
problems_of name (v ∷ vs) = of_field name v ▹ problems_of name vs

abbrev pub named : String → Checked → Walked
named name (violations vs) = found (problems_of name vs)
named name panics = walk_panics

-- The one error that joins an element's.
abbrev pub at_element : String → ℕ → Walked → Walked
at_element name j (found no_problems) = found no_problems
at_element name j (found (p ▹ ps)) = found (of_element name j (p ▹ ps) ▹ no_problems)
at_element name j walk_panics = walk_panics

abbrev before_comma : String → Option ℕ → String
before_comma tag none = tag
before_comma tag (some i) = slice tag 0 i

-- jsonFieldName
unfoldable pub json_field_name : Declared → String
json_field_name f =
    if str_eq f.json_tag "-" then "" else before_comma f.json_tag (find? f.json_tag ",")

module _ (table : String → Option TableRules) where
  abbrev pub nested_table : Declared → Option (Option TableRules)
  nested_table f = elim f.constraints_tag [
    | none ↦ none
    | some key ↦ if f.is_slice then some (table key) else none
  ]

module _ (matches : String → String → Bool) where
  abbrev when_broken : Bool → Violation → List Violation
  when_broken true v = v ∷ []
  when_broken false v = []

  abbrev sub_by_kind : SubRules → Value → List Violation
  sub_by_kind jsf (text_value s) =
      when_broken (breaks (λ p. not (matches p s)) jsf.pattern) no_match
  sub_by_kind jsf (signed_value n) =
      when_broken (breaks (λ m. ltb_ℤ n m) jsf.min) (bound below is_required jsf.min)
      ++ when_broken (breaks (λ m. ltb_ℤ m n) jsf.max) (bound above is_required jsf.max)
  sub_by_kind jsf _ = []

  -- checkJSONBSubField
  unfoldable pub check_sub_field : SubRules → FieldValue → List Violation
  unfolding is_zero
  check_sub_field jsf nil_pointer = []
  check_sub_field jsf (present v) =
      when_broken (jsf.required && is_zero v) is_required ++ sub_by_kind jsf v

  -- The fields of a struct that a key of a JSON column names.
  unfoldable pub check_key : String → SubRules → Struct → Walked
  unfolding check_sub_field json_field_name
  check_key key jsf no_fields = found no_problems
  check_key key jsf (field f v elems rest) =
      let others = check_key key jsf rest in
      if f.is_exported && str_eq (json_field_name f) key
      then both (named key (violations (check_sub_field jsf v))) others
      else others

  abbrev pub check_keys : Dict SubRules → Struct → Walked
  check_keys [] s = found no_problems
  check_keys (k ∷ jsonb) s = both (check_key k.0 k.1 s) (check_keys jsonb s)

  -- checkJSONB
  unfoldable pub check_jsonb : TableRules → Struct → Walked
  unfolding check_key
  check_jsonb [] s = found no_problems
  check_jsonb (c ∷ entry) s = both (check_keys c.1.jsonb s) (check_jsonb entry s)

  abbrev pub check_column : Option ColumnRules → String → FieldValue → Walked
  check_column none name v = found no_problems
  check_column (some c) name v = named name (check_field matches c.rules v)

  -- `table` is constraints.Table.
  module _ (table : String → Option TableRules) where
    unfoldable mutual
      unfolding lookup json_field_name check_field check_jsonb

      -- The loop of validateStruct.
      pub walk_fields : Struct → TableRules → Walked
      walk_fields no_fields entry = found no_problems
      walk_fields (field f v elems rest) entry =
          let name = json_field_name f in
          let own =
            both (check_column (lookup name entry) name v)
              (walk_elements elems (nested_table table f) name 0) in
          let others = walk_fields rest entry in if f.is_exported then both own others else others

      -- The elements of a slice that names a table; an element panics where the table has no rules.
      pub walk_elements : Elements → Option (Option TableRules) → String → ℕ → Walked
      walk_elements elems none name j = found no_problems
      walk_elements no_elements (some t) name j = found no_problems
      walk_elements (nil_element rest) (some t) name j = walk_panics
      walk_elements (struct_element s rest) (some none) name j = walk_panics
      walk_elements (struct_element s rest) (some (some entry)) name j =
          both (at_element name j (both (walk_fields s entry) (check_jsonb entry s)))
            (walk_elements rest (some (some entry)) name (j + 1))

    -- validateStruct
    unfoldable pub validate_struct : Struct → TableRules → Walked
    unfolding walk_fields check_jsonb
    validate_struct s entry = both (walk_fields s entry) (check_jsonb entry s)

    abbrev pub by_rules : Struct → Option TableRules → Walked
    by_rules s none = found no_problems
    by_rules s (some entry) = validate_struct s entry

    -- Struct, of a struct
    unfoldable pub validate : Struct → String → Walked
    unfolding validate_struct
    validate s key = by_rules s (table key)
