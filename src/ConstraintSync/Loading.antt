-- ===== src/ConstraintSync/Loading.antt =====
-- From the database's rows to the rules that the server has.
use mathlib.Core.List.{Permᴰ}
use yop_pms.Prelude.{
  ◌≡◌, refl, ◌∙◌, ap, String, Bool, true, false, Option, none, some, List, any_where, arith, inl,
  inr, Option-cases, coalesce,
}
use yop_pms.Prelude.Dict.{lookup}
use yop_pms.ConstraintSync.{FieldConstraint, ConstraintMap, no_entry, is_empty}
use yop_pms.ConstraintSync.Clause.{Matchers}
use yop_pms.ConstraintSync.Collect.{CheckRow, NullRow, GistRow, collect}
use yop_pms.ConstraintSync.Required.{marked, is_marked, is_null_row_of, collect-is_marked}
use yop_pms.ConstraintSync.Yaml.{write_yaml}
use yop_pms.ConstraintSync.Reader.{Decoder, IsDecoder, Field, Entry, all_plain, read_table}
use yop_pms.ConstraintSync.Loaded.{
  tags, loaded_field, loaded_entry, unless_blank, no_rules, is_plain,
}
use yop_pms.ConstraintSync.RoundTrip.{read_table-write_yaml}

-- Whether the rules of a field ask for a value.
abbrev pub asks : Option Field → Bool
asks none = false
asks (some field) = field.required

-- Whether the server asks for a value in a column: Table(key).Fields[col].Required
unfoldable pub is_asked : String → Option Entry → Bool
is_asked col entry = asks ((coalesce entry no_rules).fields col)

asks-unless_blank : (o : Option FieldConstraint) → asks (unless_blank o) ≡ marked o
unfolding is_empty loaded_field
asks-unless_blank none = refl
asks-unless_blank (some fc) = ground arith

asks-loaded :
    (key col : String) (cm : ConstraintMap)
    → asks ((loaded_entry (coalesce (lookup key cm) no_entry)).fields col) ≡ is_marked key col cm
unfolding loaded_entry is_marked lookup
asks-loaded key col cm = elim (Option-cases (lookup key cm)) [
  | inl e ↦ rw e refl
  | inr (entry, e) ↦ rw e (asks-unless_blank (lookup col entry.fields))
]

-- The server asks for a value in a column of a table exactly if the database has it as NOT NULL, and it is neither
-- the database's own nor internal, whatever the CHECK constraints say. What the tool gathers is plain text.
pub collect-is_asked :
    (d : Decoder) (laws : IsDecoder d) (literal : all_plain d.plain tags ≡ true)
    (sort : List String → List String) (sorts : (ks : List String) → Permᴰ (sort ks) ks)
    (m : Matchers) (checks : List CheckRow) (nulls : List NullRow) (gists : List GistRow)
    (key col : String)
    → is_plain d.plain (collect m checks nulls gists) ≡ true
    → is_asked col (read_table d (write_yaml d.itoa sort (collect m checks nulls gists)) key)
      ≡ any_where (is_null_row_of key col) nulls
unfolding is_asked
collect-is_asked d laws literal sort sorts m checks nulls gists key col h =
    ap (λ (e : Entry). asks (e.fields col))
      (read_table-write_yaml d laws literal sort sorts (collect m checks nulls gists) key h)
    ∙ asks-loaded key col (collect m checks nulls gists)
    ∙ collect-is_marked m key col checks nulls gists
