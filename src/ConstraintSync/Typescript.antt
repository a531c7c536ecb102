-- ===== src/ConstraintSync/Typescript.antt =====
-- cmd/tools/sync-constraints/write_ts.go: the tables that the tool hands to its template, which the web client's
-- file is made from.
use Prim.Native.String.{◌++◌ as append}
use text.Mathlib.Text.{◌==◌ as str_eq}
use yop_pms.Prelude.{
  is_nil, String, Bool, true, false, Option, none, some, List, [], ◌∷◌, if◌then◌else◌, ◌&&◌,
}
use yop_pms.Prelude.Dict.{Dict, lookup, keys}
use yop_pms.Availability.{ℤ}
use yop_pms.ConstraintSync.{SubField, FieldConstraint, Comparison, TableEntry, ConstraintMap}
use yop_pms.ConstraintSync.Yaml.{unless_empty}

-- tsJsonbEntry, tsTSField and tsTable
pub record TsKey : Type 0 where
  pub key : String
  pub props : String

pub record TsField : Type 0 where
  pub name : String
  pub props : String
  pub jsonb : List TsKey

pub record TsTable : Type 0 where
  pub name : String
  pub fields : List TsField
  pub comparisons : List Comparison
  pub notes : List String

-- strings.Join(parts, ", ")
unfoldable pub join_comma : List String → String
join_comma [] = ""
join_comma (p ∷ []) = p
join_comma (p ∷ q ∷ ps) = append p (append ", " (join_comma (q ∷ ps)))

-- The parts that are appended.
unfoldable pub parts_of : List (Option String) → List String
parts_of [] = []
parts_of (none ∷ ps) = parts_of ps
parts_of (some p ∷ ps) = p ∷ parts_of ps

abbrev pub when_true : Bool → String → Option String
when_true true p = some p
when_true false p = none

-- A part written by Sprintf, as a prefix and a value: "maxLength: %d".
abbrev pub formatted : {A : Type 0} → String → (A → String) → Option A → Option String
formatted prefix f none = none
formatted prefix f (some a) = some (append prefix (f a))

abbrev pub slashed : String → String
slashed p = append "/" (append p "/")

abbrev pub pushed : {A : Type 0} → Option A → List A → List A
pushed none rest = rest
pushed (some a) rest = a ∷ rest

-- What a loop over sorted keys appends.
abbrev pub gathered : {A : Type 0} → (String → Option A) → List String → List A
gathered f [] = []
gathered f (k ∷ ks) = pushed (f k) (gathered f ks)

-- `itoa` is %d, `quote` %q, and `sort` sort.Strings.
module _ (itoa : ℤ → String) (quote : String → String) where
  abbrev pub field_parts : FieldConstraint → List (Option String)
  field_parts fc =
      when_true fc.required "required: true"
      ∷ formatted "requiredWith: " quote (unless_empty fc.required_with)
      ∷ when_true fc.valid_range "validRange: true"
      ∷ formatted "maxLength: " itoa fc.max_length
      ∷ formatted "minLength: " itoa fc.min_length
      ∷ formatted "exactLength: " itoa fc.exact_length
      ∷ formatted "min: " itoa fc.min
      ∷ formatted "max: " itoa fc.max
      ∷ formatted "pattern: " slashed fc.pattern
      ∷ []

  -- buildTSProps
  unfoldable pub build_ts_props : FieldConstraint → String
  unfolding join_comma parts_of
  build_ts_props fc = join_comma (parts_of (field_parts fc))

  abbrev pub sub_field_parts : SubField → List (Option String)
  sub_field_parts sf =
      when_true sf.required "required: true"
      ∷ formatted "pattern: " slashed sf.pattern
      ∷ formatted "min: " itoa sf.min
      ∷ formatted "max: " itoa sf.max
      ∷ []

  -- buildTSJsonbProps
  unfoldable pub build_ts_jsonb_props : SubField → String
  unfolding join_comma parts_of
  build_ts_jsonb_props sf = join_comma (parts_of (sub_field_parts sf))

  abbrev pub ts_key : String → Option SubField → Option TsKey
  ts_key k none = none
  ts_key k (some sf) = some (record { key = k; props = build_ts_jsonb_props sf })

  module _ (sort : List String → List String) where
    abbrev pub ts_keys : Dict SubField → List TsKey
    ts_keys jsonb = gathered (λ k. ts_key k (lookup k jsonb)) (sort (keys jsonb))

    abbrev pub ts_field : String → Option FieldConstraint → Option TsField
    ts_field f none = none
    ts_field f (some fc) =
        if str_eq (build_ts_props fc) "" && is_nil (ts_keys fc.jsonb)
        then none
        else some (record { name = f; props = build_ts_props fc; jsonb = ts_keys fc.jsonb })

    abbrev pub ts_fields : TableEntry → List TsField
    ts_fields entry = gathered (λ f. ts_field f (lookup f entry.fields)) (sort (keys entry.fields))

    abbrev pub ts_table : String → Option TableEntry → Option TsTable
    ts_table key none = none
    ts_table key (some entry) =
        if is_nil (ts_fields entry) && is_nil entry.comparisons && is_nil entry.notes
        then none
        else some (record {
          name = key;
          fields = ts_fields entry;
          comparisons = entry.comparisons;
          notes = entry.notes;
        })

    -- writeTS, up to the execution of the template.
    unfoldable pub write_ts : ConstraintMap → List TsTable
    unfolding lookup keys build_ts_props build_ts_jsonb_props
    write_ts cm = gathered (λ key. ts_table key (lookup key cm)) (sort (keys cm))
