-- ===== src/ConstraintSync/Collect.antt =====
-- The three loops of main in cmd/tools/sync-constraints/main.go over the rows that the database answers with.
use Prim.Native.String.{◌++◌ as append}
use text.Mathlib.Text.{◌==◌ as str_eq}
use yop_pms.Prelude.{
  String, true, ◌||◌, Option, none, some, List, [], ◌∷◌, ◌++◌, if◌then◌else◌, coalesce, or_else,
}
use yop_pms.Prelude.Dict.{Dict, lookup, modify}
use yop_pms.ConstraintSync.{
  SubField, FieldConstraint, Comparison, TableEntry, ConstraintMap, is_internal, is_system,
  is_empty, with_entry, with_field, merge_field,
}
use yop_pms.ConstraintSync.Parens.{strip_outer_parens}
use yop_pms.ConstraintSync.Clause.{
  Matchers, is_null_check, parse_jsonb, parse_range_validity, parse_clause, parse_required_with,
  parse_cross_col,
}

-- A row of the query for CHECK constraints, of that for NOT NULL columns, and of that for exclusion constraints.
pub record CheckRow : Type 0 where
  pub schema : String
  pub table : String
  pub constraint_name : String
  pub column_name : Option String
  pub check_clause : String

pub record NullRow : Type 0 where
  pub schema : String
  pub table : String
  pub column : String

pub record GistRow : Type 0 where
  pub schema : String
  pub table : String
  pub name : String
  pub def : String

abbrev pub table_key : String → String → String
table_key schema table = append schema (append "." table)

-- The keys of a JSON column, merged into those that it has: an entry that is not there is `v` itself.
abbrev merge_sub_field : SubField → SubField → SubField
merge_sub_field v old = record old {
  required = v.required || old.required;
  pattern = or_else v.pattern old.pattern;
}

abbrev merge_key : String → SubField → Option SubField → Dict SubField → Dict SubField
merge_key k v none jsonb = modify k v (λ f. f) jsonb
merge_key k v (some old) jsonb = modify k v (merge_sub_field v) jsonb

unfoldable pub merge_jsonb : Dict SubField → Dict SubField → Dict SubField
unfolding lookup
merge_jsonb [] jsonb = jsonb
merge_jsonb (e ∷ fields) jsonb = merge_jsonb fields (merge_key e.0 e.1 (lookup e.0 jsonb) jsonb)

abbrev pub add_note : String → TableEntry → TableEntry
add_note note entry = record entry { notes = entry.notes ++ (note ∷ []) }

-- The end of the loop's body: a comparison of columns, or else a note.
abbrev pub compared_or_noted : String → String → Option Comparison → TableEntry → TableEntry
compared_or_noted name clause (some cmp) entry = record entry {
  comparisons = entry.comparisons ++ (cmp ∷ []);
}
compared_or_noted name clause none entry = add_note (append name (append ": " clause)) entry

-- Columns that are required together.
abbrev pub paired : String × String → (TableEntry → TableEntry) → TableEntry → TableEntry
paired (a, b) next entry =
    if str_eq a ""
    then next entry
    else with_field b (λ fc. record fc { required_with = a })
        (with_field a (λ fc. record fc { required_with = b }) entry)

abbrev pub single :
    Option (String × FieldConstraint) → (TableEntry → TableEntry) → TableEntry → TableEntry
single none next entry = next entry
single (some (col, fc)) next entry =
    if is_empty fc then next entry else with_field col (merge_field fc) entry

abbrev pub ranged : Option String → (TableEntry → TableEntry) → TableEntry → TableEntry
ranged none next entry = next entry
ranged (some col) next entry = with_field col (λ fc. record fc { valid_range = true }) entry

abbrev pub keyed :
    Option (String × Dict SubField) → (TableEntry → TableEntry) → TableEntry → TableEntry
keyed none next entry = next entry
keyed (some (col, fields)) next entry =
    with_field col (λ fc. record fc { jsonb = merge_jsonb fields fc.jsonb }) entry

-- The body of the loop over NOT NULL columns.
unfoldable pub null_row : NullRow → ConstraintMap → ConstraintMap
unfolding modify
null_row row cm =
    if is_system row.column || is_internal row.column
    then cm
    else with_entry (table_key row.schema row.table)
        (with_field row.column (λ fc. record fc { required = true })) cm

unfoldable pub null_rows : List NullRow → ConstraintMap → ConstraintMap
unfolding null_row
null_rows [] cm = cm
null_rows (row ∷ rows) cm = null_rows rows (null_row row cm)

-- The body of the loop over exclusion constraints.
unfoldable pub gist_row : GistRow → ConstraintMap → ConstraintMap
unfolding modify
gist_row row cm =
    with_entry (table_key row.schema row.table)
      (add_note (append "GIST " (append row.name (append ": " row.def)))) cm

unfoldable pub gist_rows : List GistRow → ConstraintMap → ConstraintMap
unfolding gist_row
gist_rows [] cm = cm
gist_rows (row ∷ rows) cm = gist_rows rows (gist_row row cm)

module _ (m : Matchers) where
  -- What a clause that is read does to its table's entry: the first parser that knows it.
  unfoldable pub classify : String → String → String → TableEntry → TableEntry
  unfolding parse_jsonb parse_range_validity parse_clause parse_required_with parse_cross_col
      is_empty merge_field merge_jsonb modify
  classify name clause col entry =
      keyed (parse_jsonb m clause)
        (ranged (parse_range_validity m clause) (
          single (parse_clause m clause col) (
            paired (parse_required_with m clause)
              (compared_or_noted name clause (parse_cross_col m clause)))))
        entry

  -- The body of the loop over CHECK constraints.
  unfoldable pub check_row : CheckRow → ConstraintMap → ConstraintMap
  unfolding strip_outer_parens is_null_check classify modify
  check_row row cm =
      let clause = strip_outer_parens m.trim_space row.check_clause in
      let col = coalesce row.column_name "" in
      if is_internal col
      then cm
      else if is_null_check m clause
      then cm
      else with_entry (table_key row.schema row.table) (classify row.constraint_name clause col) cm

  unfoldable pub check_rows : List CheckRow → ConstraintMap → ConstraintMap
  unfolding check_row
  check_rows [] cm = cm
  check_rows (row ∷ rows) cm = check_rows rows (check_row row cm)

  -- main, from the rows to the map that it writes.
  unfoldable pub collect : List CheckRow → List NullRow → List GistRow → ConstraintMap
  unfolding check_rows null_rows gist_rows
  collect checks nulls gists = gist_rows gists (null_rows nulls (check_rows checks []))
