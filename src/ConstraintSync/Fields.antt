-- ===== src/ConstraintSync/Fields.antt =====
-- The rules of a table's fields, written and read again.
use text.Mathlib.Text.{◌==◌ as str_eq}
use text.Mathlib.TextEquality.{eq_iff}
use mathlib.Core.List.{Permᴰ}
use yop_pms.Prelude.{
  ◌≡◌, refl, ◌∙◌, ap, String, Bool, true, false, Option, none, some, List, [], ◌∷◌, arith, inl, inr,
  Bool-cases, Option-cases,
}
use yop_pms.Prelude.Dict.{Dict, lookup, keys}
use yop_pms.Availability.{ℤ}
use yop_pms.ConstraintSync.{SubField, FieldConstraint}
use yop_pms.ConstraintSync.Yaml.{
  Node, mapping_of, filled, written, field_pairs, sub_field_pairs, sub_field_at, field_at,
  jsonb_node, int_node, str_node, bool_node, unless_empty,
}
use yop_pms.ConstraintSync.Reader.{
  Decoder, IsDecoder, distinct, all_plain, mapped, read_sub_field, read_jsonb, read_field,
  read_fields, flag, text_or_empty,
}
use yop_pms.ConstraintSync.Written.{
  first_of, value_at-mapping, first_of-written, written-distinct, written-plain, at_key,
  at_key-filled,
}
use yop_pms.ConstraintSync.Loaded.{
  tags, loaded_field, unless_blank, every_value, every_value-lookup, plain_option, plain_sub_field,
  plain_field,
}

module _ (d : Decoder) (laws : IsDecoder d) (literal : all_plain d.plain tags ≡ true) where
  mapped-int : (n : Option ℤ) → mapped d.as_int (int_node d.itoa n) ≡ n
  mapped-int none = refl
  mapped-int (some n) = ap some (laws.as_int_lem n)

  mapped-text :
      (s : Option String) → plain_option d.plain s ≡ true → mapped d.as_text (str_node s) ≡ s
  mapped-text none h = refl
  mapped-text (some s) h = ap some (laws.as_text_lem s h)

  flag-bool : (b : Bool) → flag d (bool_node b) ≡ b
  flag-bool true = laws.as_bool_lem
  flag-bool false = refl

  read_sub_field-pairs :
      (sf : SubField)
      → plain_sub_field d.plain sf ≡ true
      → read_sub_field d (mapping_of (sub_field_pairs d.itoa sf)) ≡ sf
  read_sub_field-pairs sf h =
      rw
        (
          at "required",
          at "pattern",
          at "min",
          at "max",
          flag-bool sf.required,
          mapped-text sf.pattern h,
          mapped-int sf.min,
          mapped-int sf.max,
        )
        refl
    where
      at :
          (k : String)
          → d.value_at k (mapping_of (sub_field_pairs d.itoa sf))
            ≡ first_of k (sub_field_pairs d.itoa sf)
      at k = value_at-mapping d laws k (sub_field_pairs d.itoa sf) refl (ground (arith, literal))

  mapped-text_or_empty :
      (s : String)
      → plain_option d.plain (unless_empty s) ≡ true
      → text_or_empty d (str_node (unless_empty s)) ≡ s
  mapped-text_or_empty s h = elim (Bool-cases (str_eq s "")) [
    | inl e ↦ ground (arith, e, eq_iff s "")
    | inr e ↦ ground (arith, e, h, laws.as_text_lem s)
  ]

  -- The value that a sorted map of nodes has for a key.
  pub value_at-written :
      (sort : List String → List String) (sorts : (ks : List String) → Permᴰ (sort ks) ks)
      → {V : Type 0} (k : String) (f : Option V → Option Node) (m : Dict V) → f none ≡ none
      → distinct (keys m) ≡ true
      → all_plain d.plain (keys m) ≡ true
      → d.value_at k (mapping_of (written sort f m)) ≡ f (lookup k m)
  value_at-written sort sorts k f m h u p =
      value_at-mapping d laws k (written sort f m) (written-distinct sort sorts f m u)
        (written-plain sort sorts d.plain f m p)
      ∙ first_of-written sort sorts k f m h

  module _ (sort : List String → List String)
      (sorts : (ks : List String) → Permᴰ (sort ks) ks) where
    read_fields-at_key :
        (f : String) (o : Option Node) → read_fields d f o ≡ mapped (read_field d) (at_key d f o)
    read_fields-at_key f none = refl
    read_fields-at_key f (some n) = refl

    mapped-sub_field :
        (m : Dict SubField) (k : String)
        → every_value (plain_sub_field d.plain) m ≡ true
        → mapped (read_sub_field d) (sub_field_at d.itoa (lookup k m)) ≡ lookup k m
    mapped-sub_field m k h = elim (Option-cases (lookup k m)) [
      | inl e ↦ rw e refl
      | inr (sf, e) ↦ rw e (
          ap some
            (read_sub_field-pairs sf (every_value-lookup (plain_sub_field d.plain) m k sf h e)))
    ]

    read_jsonb-node :
        (m : Dict SubField) (k : String)
        → distinct (keys m) ≡ true
        → all_plain d.plain (keys m) ≡ true
        → every_value (plain_sub_field d.plain) m ≡ true
        → read_jsonb d k (jsonb_node d.itoa sort m) ≡ lookup k m
    unfolding lookup
    read_jsonb-node [] k u p h = refl
    read_jsonb-node (e ∷ m) k u p h =
        ap (mapped (read_sub_field d))
          (value_at-written sort sorts k (sub_field_at d.itoa) (e ∷ m) refl u p)
        ∙ mapped-sub_field (e ∷ m) k h

    read_field-pairs :
        (fc : FieldConstraint)
        → plain_field d.plain fc ≡ true
        → read_field d (mapping_of (field_pairs d.itoa sort fc)) ≡ loaded_field fc
    unfolding loaded_field
    read_field-pairs fc h =
        rw
          (
            at "required",
            at "max_length",
            at "min_length",
            at "exact_length",
            at "min",
            at "max",
            at "pattern",
            at "required_with",
            at "valid_range",
            at "jsonb",
            flag-bool fc.required,
            mapped-int fc.max_length,
            mapped-int fc.min_length,
            mapped-int fc.exact_length,
            mapped-int fc.min,
            mapped-int fc.max,
            mapped-text fc.pattern (ground (arith, h)),
            mapped-text_or_empty fc.required_with (ground (arith, h)),
            flag-bool fc.valid_range,
          )
          (λ i. record (loaded_field fc) { jsonb = λ k. json k i })
      where
        at :
            (k : String)
            → d.value_at k (mapping_of (field_pairs d.itoa sort fc))
              ≡ first_of k (field_pairs d.itoa sort fc)
        at k = value_at-mapping d laws k (field_pairs d.itoa sort fc) refl (ground (arith, literal))

        json : (k : String) → read_jsonb d k (jsonb_node d.itoa sort fc.jsonb) ≡ lookup k fc.jsonb
        json k =
            read_jsonb-node fc.jsonb k (ground (arith, h)) (ground (arith, h)) (ground (arith, h))

    mapped-field :
        (m : Dict FieldConstraint) (f : String)
        → every_value (plain_field d.plain) m ≡ true
        → mapped (read_field d) (field_at d.itoa sort (lookup f m)) ≡ unless_blank (lookup f m)
    mapped-field m f h = elim (Option-cases (lookup f m)) [
      | inl e ↦ rw e refl
      | inr (fc, e) ↦ rw e (
          ground (arith, read_field-pairs fc (every_value-lookup (plain_field d.plain) m f fc h e)))
    ]

    -- A table's fields, which are left out where there is nothing to write.
    pub read_fields-filled :
        (m : Dict FieldConstraint) (f : String)
        → distinct (keys m) ≡ true
        → all_plain d.plain (keys m) ≡ true
        → every_value (plain_field d.plain) m ≡ true
        → read_fields d f (filled (written sort (field_at d.itoa sort) m))
          ≡ unless_blank (lookup f m)
    read_fields-filled m f u p h =
        read_fields-at_key f (filled (written sort (field_at d.itoa sort) m))
        ∙ ap (mapped (read_field d)) (
            at_key-filled d laws f (written sort (field_at d.itoa sort) m)
              (written-distinct sort sorts (field_at d.itoa sort) m u)
              (written-plain sort sorts d.plain (field_at d.itoa sort) m p)
            ∙ first_of-written sort sorts f (field_at d.itoa sort) m refl)
        ∙ mapped-field m f h
