-- ===== src/ConstraintSync/RoundTrip.antt =====
-- The file of rules: what the tool writes is what the server reads.
use mathlib.Core.List.{Permᴰ}
use yop_pms.Prelude.{
  ◌≡◌, refl, ◌∙◌, ap, String, true, Option, none, some, List, [], ◌∷◌, map, arith, inl, inr,
  Option-cases, coalesce,
}
use yop_pms.Prelude.Dict.{lookup}
use yop_pms.ConstraintSync.{Comparison, TableEntry, ConstraintMap, no_entry}
use yop_pms.ConstraintSync.Yaml.{
  Node, mapping_of, filled, written, write_yaml, field_at, entry_at, entry_pairs, comparison_node,
  text_node, listed,
}
use yop_pms.ConstraintSync.Reader.{
  Decoder, IsDecoder, Entry, all_plain, mapped, read_fields, read_comparison, read_entry,
  items_or_none, read_table,
}
use yop_pms.ConstraintSync.Written.{first_of, value_at-mapping, at_key, at_key-filled}
use yop_pms.ConstraintSync.Loaded.{
  tags, unless_blank, loaded_entry, no_rules, every_value, every_value-lookup, every,
  plain_comparison, plain_entry, is_plain,
}
use yop_pms.ConstraintSync.Fields.{value_at-written, read_fields-filled}

module _ (d : Decoder) (laws : IsDecoder d) (literal : all_plain d.plain tags ≡ true)
    (sort : List String → List String) (sorts : (ks : List String) → Permᴰ (sort ks) ks) where
  items_or_none-listed : (ns : List Node) → items_or_none d (listed ns) ≡ ns
  items_or_none-listed [] = refl
  items_or_none-listed (n ∷ ns) = laws.items_lem (n ∷ ns)

  read_comparison-node :
      (cmp : Comparison)
      → plain_comparison d.plain cmp ≡ true
      → read_comparison d (comparison_node cmp) ≡ cmp
  read_comparison-node cmp h =
      rw
        (
          at "field",
          at "operator",
          at "other",
          laws.as_text_lem cmp.field (ground (arith, h)),
          laws.as_text_lem cmp.operator (ground (arith, h)),
          laws.as_text_lem cmp.other (ground (arith, h)),
        )
        refl
    where
      pairs : List (String × Option Node)
      pairs =
          ("field", some (text_node cmp.field))
          ∷ ("operator", some (text_node cmp.operator))
          ∷ ("other", some (text_node cmp.other))
          ∷ []

      at : (k : String) → d.value_at k (mapping_of pairs) ≡ first_of k pairs
      at k = value_at-mapping d laws k pairs refl (ground (arith, literal))

  mapped-read_comparison :
      (cmps : List Comparison)
      → every (plain_comparison d.plain) cmps ≡ true
      → map (read_comparison d) (map comparison_node cmps) ≡ cmps
  mapped-read_comparison [] h = refl
  mapped-read_comparison (cmp ∷ cmps) h =
      ground (arith, h, read_comparison-node cmp, mapped-read_comparison cmps)

  mapped-as_text :
      (notes : List String)
      → all_plain d.plain notes ≡ true
      → map d.as_text (map text_node notes) ≡ notes
  mapped-as_text [] h = refl
  mapped-as_text (note ∷ notes) h = ground (arith, h, laws.as_text_lem note, mapped-as_text notes)

  mapped-comparison :
      (cmps : List Comparison)
      → every (plain_comparison d.plain) cmps ≡ true
      → map (read_comparison d) (items_or_none d (listed (map comparison_node cmps))) ≡ cmps
  mapped-comparison cmps h =
      ap (map (read_comparison d)) (items_or_none-listed (map comparison_node cmps))
      ∙ mapped-read_comparison cmps h

  mapped-note :
      (notes : List String)
      → all_plain d.plain notes ≡ true
      → map d.as_text (items_or_none d (listed (map text_node notes))) ≡ notes
  mapped-note notes h =
      ap (map d.as_text) (items_or_none-listed (map text_node notes)) ∙ mapped-as_text notes h

  -- A table's entry, read from the node that it may have.
  abbrev entry_from : Option Node → Entry
  entry_from o = record {
    fields = λ f. read_fields d f (at_key d "fields" o);
    comparisons = map (read_comparison d) (items_or_none d (at_key d "comparisons" o));
    notes = map d.as_text (items_or_none d (at_key d "notes" o));
  }

  entry_from-filled :
      (entry : TableEntry)
      → plain_entry d.plain entry ≡ true
      → entry_from (filled (entry_pairs d.itoa sort entry)) ≡ loaded_entry entry
  unfolding loaded_entry
  entry_from-filled entry h =
      rw
        (
          at "fields",
          at "comparisons",
          at "notes",
          mapped-comparison entry.comparisons (ground (arith, h)),
          mapped-note entry.notes (ground (arith, h)),
        )
        (λ i. record (loaded_entry entry) { fields = λ f. fields f i })
    where
      at :
          (k : String)
          → at_key d k (filled (entry_pairs d.itoa sort entry))
            ≡ first_of k (entry_pairs d.itoa sort entry)
      at k = at_key-filled d laws k (entry_pairs d.itoa sort entry) refl (ground (arith, literal))

      fields :
          (f : String)
          → read_fields d f (filled (written sort (field_at d.itoa sort) entry.fields))
            ≡ unless_blank (lookup f entry.fields)
      fields f =
          read_fields-filled d laws literal sort sorts entry.fields f (ground (arith, h))
            (ground (arith, h)) (ground (arith, h))

  entry_from-read : (o : Option Node) → coalesce (mapped (read_entry d) o) no_rules ≡ entry_from o
  entry_from-read none = refl
  entry_from-read (some n) = refl

  entry_from-entry_at :
      (cm : ConstraintMap) (key : String)
      → every_value (plain_entry d.plain) cm ≡ true
      → entry_from (entry_at d.itoa sort (lookup key cm))
        ≡ loaded_entry (coalesce (lookup key cm) no_entry)
  unfolding loaded_entry lookup
  entry_from-entry_at cm key h = elim (Option-cases (lookup key cm)) [
    | inl e ↦ rw e refl
    | inr (entry, e) ↦
        rw e (entry_from-filled entry (every_value-lookup (plain_entry d.plain) cm key entry h e))
  ]

  -- What the tool writes is what the server reads: for every table the rules of each field that has any, the
  -- comparisons and the notes, where the keys of the maps stand once and all texts are plain ones. A table that is
  -- left out is one without rules.
  pub read_table-write_yaml :
      (cm : ConstraintMap) (key : String)
      → is_plain d.plain cm ≡ true
      → coalesce (read_table d (write_yaml d.itoa sort cm) key) no_rules
        ≡ loaded_entry (coalesce (lookup key cm) no_entry)
  unfolding read_table write_yaml is_plain
  read_table-write_yaml cm key h =
      rw
        (
          laws.root_lem (mapping_of (("constraints", some tables) ∷ [])),
          value_at-mapping d laws "constraints" (("constraints", some tables) ∷ []) refl
              (ground (arith, literal)),
          value_at-written d laws literal sort sorts key (entry_at d.itoa sort) cm refl
              (ground (arith, h)) (ground (arith, h)),
        )
        (entry_from-read (entry_at d.itoa sort (lookup key cm))
          ∙ entry_from-entry_at cm key (ground (arith, h)))
    where
      tables : Node
      tables = mapping_of (written sort (entry_at d.itoa sort) cm)
