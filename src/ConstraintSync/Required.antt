-- ===== src/ConstraintSync/Required.antt =====
-- Which columns the tool marks as required.
use Prim.Native.String.{◌++◌ as append}
use text.Mathlib.Text.{◌==◌ as str_eq}
use text.Mathlib.TextEquality.{eq_iff}
use yop_pms.Prelude.{
  ◌≡◌, refl, ◌∙◌, String, Bool, true, false, not, ◌&&◌, ◌||◌, Option, none, some, List, [], ◌∷◌,
  any_where, arith, inl, inr, Option-cases, coalesce,
}
use yop_pms.Prelude.Dict.{Dict, lookup, lookup-modify}
use yop_pms.ConstraintSync.{
  SubField, FieldConstraint, Comparison, TableEntry, ConstraintMap, is_internal, is_system,
  with_entry, with_field, merge_field, no_entry, no_constraint,
}
use yop_pms.ConstraintSync.Parens.{strip_outer_parens}
use yop_pms.ConstraintSync.Clause.{
  Matchers, parse_jsonb, parse_range_validity, parse_clause, parse_required_with, parse_cross_col,
}
use yop_pms.ConstraintSync.Collect.{
  CheckRow, NullRow, GistRow, table_key, keyed, ranged, single, paired, compared_or_noted, classify,
  add_note, merge_jsonb, check_row, check_rows, null_row, null_rows, gist_row, gist_rows, collect,
}

abbrev pub marked : Option FieldConstraint → Bool
marked none = false
marked (some fc) = fc.required

abbrev pub marks : String → TableEntry → Bool
marks col entry = marked (lookup col entry.fields)

abbrev pub marks_in : String → Option TableEntry → Bool
marks_in col none = false
marks_in col (some entry) = marks col entry

-- Whether a column of a table is marked as required.
unfoldable pub is_marked : String → String → ConstraintMap → Bool
unfolding lookup
is_marked key col cm = marks_in col (lookup key cm)

-- The row that lets the tool mark it.
unfoldable pub is_null_row_of : String → String → NullRow → Bool
is_null_row_of key col row =
    str_eq key (table_key row.schema row.table)
    && str_eq col row.column
    && not (is_system row.column || is_internal row.column)

abbrev Keeps : String → (TableEntry → TableEntry) → Type 0
Keeps col f = (entry : TableEntry) → marks col (f entry) ≡ marks col entry

with_field-Keeps :
    (col field : String) (g : FieldConstraint → FieldConstraint)
    → ((fc : FieldConstraint) → (g fc).required ≡ fc.required)
    → Keeps col (with_field field g)
with_field-Keeps col field g h entry = elim (Option-cases (lookup field entry.fields)) [
  | inl e ↦ ground (
    arith,
    e,
    h no_constraint,
    eq_iff col field,
    lookup-modify col field no_constraint g entry.fields,
  )
  | inr (fc, e) ↦
      ground
        (arith, e, h fc, eq_iff col field, lookup-modify col field no_constraint g entry.fields)
]

compared_or_noted-Keeps :
    (col name clause : String) (o : Option Comparison) → Keeps col (compared_or_noted name clause o)
compared_or_noted-Keeps col name clause none entry = refl
compared_or_noted-Keeps col name clause (some cmp) entry = refl

paired-Keeps :
    (col : String) (ab : String × String) (next : TableEntry → TableEntry)
    → Keeps col next
    → Keeps col (paired ab next)
paired-Keeps col (a, b) next h entry = ground (
  arith,
  h entry,
  with_field-Keeps col a (λ fc. record fc { required_with = b }) (λ fc. refl) entry,
  with_field-Keeps col b (λ fc. record fc { required_with = a }) (λ fc. refl)
      (with_field a (λ fc. record fc { required_with = b }) entry),
)

single-Keeps :
    (col : String) (o : Option (String × FieldConstraint)) (next : TableEntry → TableEntry)
    → Keeps col next
    → Keeps col (single o next)
unfolding merge_field
single-Keeps col none next h entry = h entry
single-Keeps col (some (c, fc)) next h entry =
    ground (arith, h entry, with_field-Keeps col c (merge_field fc) (λ fc. refl) entry)

ranged-Keeps :
    (col : String) (o : Option String) (next : TableEntry → TableEntry)
    → Keeps col next
    → Keeps col (ranged o next)
ranged-Keeps col none next h entry = h entry
ranged-Keeps col (some c) next h entry =
    with_field-Keeps col c (λ fc. record fc { valid_range = true }) (λ fc. refl) entry

keyed-Keeps :
    (col : String) (o : Option (String × Dict SubField)) (next : TableEntry → TableEntry)
    → Keeps col next
    → Keeps col (keyed o next)
keyed-Keeps col none next h entry = h entry
keyed-Keeps col (some (c, fields)) next h entry =
    with_field-Keeps col c (λ fc. record fc { jsonb = merge_jsonb fields fc.jsonb }) (λ fc. refl)
      entry

-- A change of one table's entry that marks no column.
with_entry-is_marked :
    (key col k : String) (f : TableEntry → TableEntry) (cm : ConstraintMap)
    → Keeps col f
    → is_marked key col (with_entry k f cm) ≡ is_marked key col cm
unfolding is_marked
with_entry-is_marked key col k f cm h = elim (Option-cases (lookup k cm)) [
  | inl e ↦ ground (arith, e, h no_entry, eq_iff key k, lookup-modify key k no_entry f cm)
  | inr (entry, e) ↦ ground (arith, e, h entry, eq_iff key k, lookup-modify key k no_entry f cm)
]

abbrev mark : FieldConstraint → FieldConstraint
mark fc = record fc { required = true }

with_field-marks :
    (col c : String) (entry : TableEntry)
    → marks col (with_field c mark entry) ≡ (str_eq col c || marks col entry)
with_field-marks col c entry = ground (arith, lookup-modify col c no_constraint mark entry.fields)

with_entry-marks :
    (key col k c : String) (cm : ConstraintMap)
    → is_marked key col (with_entry k (with_field c mark) cm)
      ≡ (str_eq key k && str_eq col c || is_marked key col cm)
unfolding is_marked
with_entry-marks key col k c cm = elim (Option-cases (lookup k cm)) [
  | inl e ↦ ground (
    arith,
    e,
    eq_iff key k,
    with_field-marks col c no_entry,
    lookup-modify key k no_entry (with_field c mark) cm,
  )
  | inr (entry, e) ↦ ground (
    arith,
    e,
    eq_iff key k,
    with_field-marks col c entry,
    lookup-modify key k no_entry (with_field c mark) cm,
  )
]

null_row-is_marked :
    (key col : String) (row : NullRow) (cm : ConstraintMap)
    → is_marked key col (null_row row cm) ≡ (is_null_row_of key col row || is_marked key col cm)
unfolding null_row is_null_row_of
null_row-is_marked key col row cm =
    ground (arith, with_entry-marks key col (table_key row.schema row.table) row.column cm)

null_rows-is_marked :
    (key col : String) (rows : List NullRow) (cm : ConstraintMap)
    → is_marked key col (null_rows rows cm)
      ≡ (any_where (is_null_row_of key col) rows || is_marked key col cm)
unfolding null_rows any_where
null_rows-is_marked key col [] cm = refl
null_rows-is_marked key col (row ∷ rows) cm =
    ground
      (arith, null_rows-is_marked key col rows (null_row row cm), null_row-is_marked key col row cm)

module _ (m : Matchers) where
  check_row-is_marked :
      (key col : String) (row : CheckRow) (cm : ConstraintMap)
      → is_marked key col (check_row m row cm) ≡ is_marked key col cm
  unfolding check_row classify
  check_row-is_marked key col row cm =
      let clause = strip_outer_parens m.trim_space row.check_clause in
      let c = coalesce row.column_name "" in
      ground (
        arith,
        with_entry-is_marked key col (table_key row.schema row.table)
            (classify m row.constraint_name clause c) cm
            (keyed-Keeps col (parse_jsonb m clause) _ (
              ranged-Keeps col (parse_range_validity m clause) _ (
                single-Keeps col (parse_clause m clause c) _ (
                  paired-Keeps col (parse_required_with m clause) _ (
                    compared_or_noted-Keeps col row.constraint_name clause
                      (parse_cross_col m clause)))))),
      )

  check_rows-is_marked :
      (key col : String) (rows : List CheckRow) (cm : ConstraintMap)
      → is_marked key col (check_rows m rows cm) ≡ is_marked key col cm
  unfolding check_rows
  check_rows-is_marked key col [] cm = refl
  check_rows-is_marked key col (row ∷ rows) cm =
      check_rows-is_marked key col rows (check_row m row cm) ∙ check_row-is_marked key col row cm

gist_rows-is_marked :
    (key col : String) (rows : List GistRow) (cm : ConstraintMap)
    → is_marked key col (gist_rows rows cm) ≡ is_marked key col cm
unfolding gist_rows gist_row
gist_rows-is_marked key col [] cm = refl
gist_rows-is_marked key col (row ∷ rows) cm =
    gist_rows-is_marked key col rows (gist_row row cm)
    ∙ with_entry-is_marked key col (table_key row.schema row.table)
        (add_note (append "GIST " (append row.name (append ": " row.def)))) cm (λ entry. refl)

-- A column of a table is required exactly if it is among the NOT NULL columns, and is neither the database's own nor
-- internal: no CHECK constraint, whatever it says, marks a column or takes the mark away.
pub collect-is_marked :
    (m : Matchers) (key col : String) (checks : List CheckRow) (nulls : List NullRow)
    (gists : List GistRow)
    → is_marked key col (collect m checks nulls gists) ≡ any_where (is_null_row_of key col) nulls
unfolding collect is_marked lookup
collect-is_marked m key col checks nulls gists = ground (
  arith,
  gist_rows-is_marked key col gists (null_rows nulls (check_rows m checks [])),
  null_rows-is_marked key col nulls (check_rows m checks []),
  check_rows-is_marked m key col checks [],
)
