-- ===== src/ConstraintSync/Clause.antt =====
-- The parsers of a check clause in cmd/tools/sync-constraints/parse.go. The regular expressions of types.go are
-- parameters, each by the groups of its first match or of all its matches.
use Prim.Native.String.{◌++◌ as append, len, slice}
use text.Mathlib.Text.{◌==◌ as str_eq, find?}
use yop_pms.Prelude.{
  is_nil, ℕ, ◌-◌, ◌+◌, ◌^◌, String, Bool, true, false, not, ◌&&◌, ◌||◌, Option, none, some, List,
  [], ◌∷◌, leb, ◌==◌, if◌then◌else◌, is_none, delete_where,
}
use yop_pms.Prelude.Dict.{Dict, modify, contains_text}
use yop_pms.Availability.{ℤ, pos, negsuc}
use yop_pms.ConstraintSync.{
  SubField, FieldConstraint, Comparison, is_function, is_system, no_constraint,
}

-- What the tool takes from Go's libraries: `regexp` with the expressions, `strconv.Atoi` by its number and
-- whether it has no error, `sort.Strings`, `strings.TrimSpace` and `strings.ToUpper`.
pub record Matchers : Type 0 where
  pub char_len_lte : String → Option (String × String)
  pub char_len_between : String → Option (String × String × String)
  pub char_len_eq : String → Option (String × String)
  pub regex_all : String → List (String × String)
  pub between : String → Option (String × String × String)
  pub gte : String → Option (String × String)
  pub gt : String → Option (String × String)
  pub range_valid : String → Option (String × String × String × String)
  pub cross_col : String → Option (String × String × String)
  pub is_not_null : String → List String
  pub without_not_null : String → String
  pub is_null : String → List String
  pub has_key : String → List (String × String)
  pub in_list : String → List (String × String × String)
  pub any_array : String → List (String × String × String)
  pub quoted : String → List String
  pub atoi : String → ℕ × Bool
  pub sort_strings : List String → List String
  pub trim_space : String → String
  pub to_upper : String → String

-- n + 1 as an int
abbrev pub succ_int : ℕ → ℤ
succ_int n = if n + 1 == 2 ^ 63 then negsuc (2 ^ 63 - 1) else pos (n + 1)

abbrev pub default_to : String → String → String
default_to candidate col = if str_eq col "" then candidate else col

-- strings.HasSuffix
abbrev pub has_suffix : String → String → Bool
has_suffix s t = leb (len t) (len s) && str_eq (slice s (len s - len t) (len s)) t

-- strings.Contains
abbrev pub has_substring : String → String → Bool
has_substring s t = not (is_none (find? s t))

-- uniqueWordMatches: the first of each.
unfoldable pub unique_loop : List String → List String → List String
unique_loop seen [] = []
unique_loop seen (col ∷ cols) =
    let rest = unique_loop (if contains_text col seen then seen else col ∷ seen) cols in
    if contains_text col seen then rest else col ∷ rest

-- filterColNames
unfoldable pub filter_col_names : List String → List String
unfolding delete_where
filter_col_names cols = delete_where (λ c. is_function c || is_system c) cols

-- stringSlicesEqual
unfoldable pub string_slices_equal : List String → List String → Bool
string_slices_equal [] [] = true
string_slices_equal [] (b ∷ bs) = false
string_slices_equal (a ∷ as_) [] = false
string_slices_equal (a ∷ as_) (b ∷ bs) = str_eq a b && string_slices_equal as_ bs

-- strings.Join(vals, "|")
abbrev pub join_bar : List String → String
join_bar [] = ""
join_bar (v ∷ []) = v
join_bar (v ∷ w ∷ vs) = append v (append "|" (join_bar (w ∷ vs)))

-- The state of parseClause: the column, what is gathered, and `matched`.
pub record Gathered : Type 0 where
  pub column : String
  pub constraint : FieldConstraint
  pub matched : Bool

-- A match, with its column unless there is one already.
abbrev found : String → FieldConstraint → Gathered → Gathered
found candidate fc g = record {
  column = default_to candidate g.column;
  constraint = fc;
  matched = true;
}

-- A match on a column: none if it is the name of a function.
abbrev found_column : String → FieldConstraint → Gathered → Gathered
found_column candidate fc g = if is_function candidate then g else found candidate fc g

abbrev pub parsed : Gathered → Option (String × FieldConstraint)
parsed g = if g.matched then some (g.column, g.constraint) else none

module _ (m : Matchers) where
  abbrev number : String → ℕ
  number s = (m.atoi s).0

  abbrev by_char_len_between : Option (String × String × String) → Gathered → Gathered
  by_char_len_between none g = g
  by_char_len_between (some (c, lo, hi)) g =
      found c
        (record g.constraint {
          min_length = some (pos (number lo));
          max_length = some (pos (number hi));
        })
        g

  abbrev by_char_len_eq : Option (String × String) → Gathered → Gathered
  by_char_len_eq none g = g
  by_char_len_eq (some (c, n)) g =
      found c (record g.constraint { exact_length = some (pos (number n)) }) g

  abbrev by_char_len_lte : Option (String × String) → Gathered → Gathered
  by_char_len_lte none g = g
  by_char_len_lte (some (c, n)) g =
      found c (record g.constraint { max_length = some (pos (number n)) }) g

  abbrev by_regex : List (String × String) → Gathered → Gathered
  by_regex [] g = g
  by_regex ((c, p) ∷ ms) g =
      by_regex ms (found_column c (record g.constraint { pattern = some p }) g)

  abbrev by_between : Option (String × String × String) → Gathered → Gathered
  by_between none g = g
  by_between (some (c, lo, hi)) g =
      found_column c
        (record g.constraint { min = some (pos (number lo)); max = some (pos (number hi)) }) g

  abbrev by_gte : Option (String × String) → Gathered → Gathered
  by_gte none g = g
  by_gte (some (c, n)) g = found_column c (record g.constraint { min = some (pos (number n)) }) g

  abbrev by_gt : Option (String × String) → Gathered → Gathered
  by_gt none g = g
  by_gt (some (c, n)) g =
      found_column c (record g.constraint { min = some (succ_int (number n)) }) g

  -- parseClause
  unfoldable pub parse_clause : String → String → Option (String × FieldConstraint)
  parse_clause clause column =
      let start : Gathered = record {
        column = column;
        constraint = no_constraint;
        matched = false;
      } in
      parsed (
        by_gt (m.gt clause) (
          by_gte (m.gte clause) (
            by_between (m.between clause) (
              by_regex (m.regex_all clause) (
                by_char_len_lte (m.char_len_lte clause) (
                  by_char_len_eq (m.char_len_eq clause)
                    (by_char_len_between (m.char_len_between clause) start)))))))

  unfoldable pub unique_word_matches : List String → List String
  unfolding unique_loop
  unique_word_matches cols = m.sort_strings (unique_loop [] cols)

  abbrev co_required : List String → List String → String × String
  co_required (a ∷ b ∷ []) null_cols =
      if string_slices_equal (a ∷ b ∷ []) null_cols then (a, b) else ("", "")
  co_required _ null_cols = ("", "")

  -- parseRequiredWith
  unfoldable pub parse_required_with : String → String × String
  unfolding unique_word_matches filter_col_names string_slices_equal
  parse_required_with clause =
      let not_null_cols = unique_word_matches (m.is_not_null clause) in
      let simplified = m.without_not_null clause in
      let null_cols = unique_word_matches (m.is_null simplified) in
      co_required (filter_col_names not_null_cols) (filter_col_names null_cols)

  abbrev range_of : Option (String × String × String × String) → Option String
  range_of none = none
  range_of (some (a, b, c, d)) =
      if str_eq a ""
      then (if str_eq c d then some c else none)
      else if str_eq a b
      then some a
      else none

  -- parseRangeValidity
  unfoldable pub parse_range_validity : String → Option String
  parse_range_validity clause = range_of (m.range_valid clause)

  abbrev compared : Option (String × String × String) → Option Comparison
  compared none = none
  compared (some (left, op, right)) =
      if is_function left || is_function right || (m.atoi left).1 || (m.atoi right).1
      then none
      else some (record { field = left; operator = op; other = right })

  -- parseCrossCol
  unfoldable pub parse_cross_col : String → Option Comparison
  parse_cross_col clause = compared (m.cross_col clause)

  abbrev no_sub_field : SubField
  no_sub_field = record { required = false; pattern = none; min = none; max = none }

  -- The state of parseJsonb: the column and the keys.
  abbrev Keys : Type 0
  Keys = String × Dict SubField

  abbrev has_keys : List (String × String) → Keys → Keys
  has_keys [] s = s
  has_keys ((c, key) ∷ ms) (col, fields) =
      let next : Keys =
        (default_to c col, modify key no_sub_field (λ f. record f { required = true }) fields) in
      has_keys ms (if is_function c then (col, fields) else next)

  abbrev with_values : String → List String → Dict SubField → Dict SubField
  with_values key [] fields = fields
  with_values key (v ∷ vals) fields =
      modify key no_sub_field (λ f. record f { pattern = some (join_bar (v ∷ vals)) }) fields

  abbrev has_values : List (String × String × String) → Keys → Keys
  has_values [] s = s
  has_values ((c, key, values) ∷ ms) (col, fields) =
      let next : Keys = (default_to c col, with_values key (m.quoted values) fields) in
      has_values ms (if is_function c then (col, fields) else next)

  abbrev jsonb_found : Keys → Option Keys
  jsonb_found (col, fields) = if str_eq col "" || is_nil fields then none else some (col, fields)

  -- parseJsonb
  unfoldable pub parse_jsonb : String → Option (String × Dict SubField)
  parse_jsonb clause =
      if not (has_substring clause "?") && not (has_substring clause "->>")
      then none
      else jsonb_found (
          has_values (m.any_array clause)
            (has_values (m.in_list clause) (has_keys (m.has_key clause) ("", []))))

  -- isNullCheck
  unfoldable pub is_null_check : String → Bool
  is_null_check clause =
      let upper = m.to_upper (m.trim_space clause) in
      has_suffix upper "IS NOT NULL" || has_suffix upper "IS NULL"
