-- ===== src/ConstraintSync.antt =====
-- cmd/tools/sync-constraints: the rules of the database's columns, as the tool collects them (types.go, and the
-- helpers of parse.go).
pub mod Parens
pub mod Clause
pub mod Collect
pub mod Required
pub mod Yaml
pub mod Reader
pub mod Written
pub mod Loaded
pub mod Fields
pub mod RoundTrip
pub mod Loading
pub mod Typescript
pub mod Agreement
mod Examples
use text.Mathlib.Text.{◌==◌ as str_eq}
use yop_pms.Prelude.{
  is_nil, String, Bool, true, false, not, ◌&&◌, ◌||◌, Option, none, some, List, [], ◌∷◌, is_none,
  or_else, if◌then◌else◌,
}
use yop_pms.Prelude.Dict.{Dict, modify}
use yop_pms.Availability.{ℤ}

-- JsonbSubField
pub record SubField : Type 0 where
  pub required : Bool
  pub pattern : Option String
  pub min : Option ℤ
  pub max : Option ℤ

pub record FieldConstraint : Type 0 where
  pub required : Bool
  pub required_with : String
  pub valid_range : Bool
  pub max_length : Option ℤ
  pub min_length : Option ℤ
  pub exact_length : Option ℤ
  pub min : Option ℤ
  pub max : Option ℤ
  pub pattern : Option String
  pub jsonb : Dict SubField

pub record Comparison : Type 0 where
  pub field : String
  pub operator : String
  pub other : String

pub record TableEntry : Type 0 where
  pub fields : Dict FieldConstraint
  pub comparisons : List Comparison
  pub notes : List String

-- constraintMap, by "schema.table"
abbrev pub ConstraintMap : Type 0
ConstraintMap = Dict TableEntry

-- internalFields
abbrev pub is_internal : String → Bool
is_internal col = str_eq col "password_hash"

-- systemColumns
abbrev pub is_system : String → Bool
is_system col =
    str_eq col "id" || str_eq col "created_at" || str_eq col "updated_at" || str_eq col "deleted_at"

-- functionNames
abbrev pub is_function : String → Bool
is_function col =
    str_eq col "char_length"
    || str_eq col "length"
    || str_eq col "lower"
    || str_eq col "upper"
    || str_eq col "jsonb_typeof"

abbrev pub no_constraint : FieldConstraint
no_constraint = record {
  required = false;
  required_with = "";
  valid_range = false;
  max_length = none;
  min_length = none;
  exact_length = none;
  min = none;
  max = none;
  pattern = none;
  jsonb = [];
}

abbrev pub no_entry : TableEntry
no_entry = record { fields = []; comparisons = []; notes = [] }

-- isEmpty
unfoldable pub is_empty : FieldConstraint → Bool
is_empty fc =
    not fc.required
    && not fc.valid_range
    && str_eq fc.required_with ""
    && is_none fc.max_length
    && is_none fc.min_length
    && is_none fc.exact_length
    && is_none fc.min
    && is_none fc.max
    && is_none fc.pattern
    && is_nil fc.jsonb

-- getOrCreate, and what the caller then does with the entry.
abbrev pub with_entry : String → (TableEntry → TableEntry) → ConstraintMap → ConstraintMap
with_entry key f cm = modify key no_entry f cm

-- getOrCreateField, and what the caller then does with the field.
abbrev pub with_field : String → (FieldConstraint → FieldConstraint) → TableEntry → TableEntry
with_field field f entry = record entry { fields = modify field no_constraint f entry.fields }

-- mergeField, of `src` into `dst`
unfoldable pub merge_field : FieldConstraint → FieldConstraint → FieldConstraint
merge_field src dst = record dst {
  max_length = or_else src.max_length dst.max_length;
  min_length = or_else src.min_length dst.min_length;
  exact_length = or_else src.exact_length dst.exact_length;
  min = or_else src.min dst.min;
  max = or_else src.max dst.max;
  pattern = or_else src.pattern dst.pattern;
  valid_range = src.valid_range || dst.valid_range;
  required_with = if str_eq src.required_with "" then dst.required_with else src.required_with;
}
