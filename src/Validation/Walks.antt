-- ===== src/Validation/Walks.antt =====
-- Which payloads the walk of internal/platform/validation/validate.go accepts, by an independent description.
use text.Mathlib.Text.{◌==◌ as str_eq}
use yop_pms.Prelude.{
  ℕ, ◌+◌, ◌≡◌, refl, ◌∙◌, String, Bool, true, false, not, ◌&&◌, ◌||◌, Option, none, some, [], ◌∷◌,
  arith,
}
use yop_pms.Prelude.Dict.{Dict, lookup}
use yop_pms.Validation.{
  text_value, signed_value, unsigned_value, float_value, bool_value, length_value, uuid_value,
  opaque_value, FieldValue, nil_pointer, present, Checked, violations, panics, is_zero, ltb_ℤ,
  check_field,
}
use yop_pms.Validation.Accepts.{accepts, in_order, within, check_field-accepts}
use yop_pms.Validation.Payload.{
  Struct, no_fields, field, Elements, no_elements, nil_element, struct_element, SubRules,
  ColumnRules, TableRules, no_problems, ◌▹◌, Walked, found, walk_panics, both, named, at_element,
  json_field_name, check_sub_field, check_key, check_keys, check_jsonb, check_column, nested_table,
  walk_fields, walk_elements, by_rules, validate_struct, validate,
}

-- Nothing was found.
abbrev pub is_clean : Walked → Bool
is_clean (found no_problems) = true
is_clean (found (p ▹ ps)) = false
is_clean walk_panics = false

both-clean : (w v : Walked) → is_clean (both w v) ≡ (is_clean w && is_clean v)
both-clean (found no_problems) (found no_problems) = refl
both-clean (found no_problems) (found (q ▹ qs)) = refl
both-clean (found no_problems) walk_panics = refl
both-clean (found (p ▹ ps)) (found qs) = refl
both-clean (found (p ▹ ps)) walk_panics = refl
both-clean walk_panics v = refl

named-clean : (name : String) (c : Checked) → is_clean (named name c) ≡ accepts c
named-clean name (violations []) = refl
named-clean name (violations (v ∷ vs)) = refl
named-clean name panics = refl

element-clean : (name : String) (j : ℕ) (w : Walked) → is_clean (at_element name j w) ≡ is_clean w
element-clean name j (found no_problems) = refl
element-clean name j (found (p ▹ ps)) = refl
element-clean name j walk_panics = refl

module _ (matches : String → String → Bool) where
  -- A value that stands for a key of a JSON column: there if it must be, and in its range or matching.
  abbrev sub_in_order : SubRules → FieldValue → Bool
  sub_in_order jsf nil_pointer = true
  sub_in_order jsf (present (text_value s)) =
      not (jsf.required && str_eq s "") && within (λ p. matches p s) jsf.pattern
  sub_in_order jsf (present (signed_value n)) =
      not (jsf.required && is_zero (signed_value n))
      && (within (λ m. not (ltb_ℤ n m)) jsf.min && within (λ m. not (ltb_ℤ m n)) jsf.max)
  sub_in_order jsf (present v) = not (jsf.required && is_zero v)

  check_sub_field-accepts :
      (jsf : SubRules) (v : FieldValue)
      → accepts (violations (check_sub_field matches jsf v)) ≡ sub_in_order jsf v
  unfolding check_sub_field is_zero
  check_sub_field-accepts jsf nil_pointer = refl
  check_sub_field-accepts jsf (present (text_value s)) = ground arith
  check_sub_field-accepts jsf (present (signed_value n)) = ground arith
  check_sub_field-accepts jsf (present (unsigned_value n)) = ground arith
  check_sub_field-accepts jsf (present (float_value z)) = ground arith
  check_sub_field-accepts jsf (present (bool_value b)) = ground arith
  check_sub_field-accepts jsf (present (length_value n)) = ground arith
  check_sub_field-accepts jsf (present (uuid_value u)) = ground arith
  check_sub_field-accepts jsf (present opaque_value) = ground arith

  -- Every exported field that a key names is in order.
  abbrev key_in_order : String → SubRules → Struct → Bool
  key_in_order key jsf no_fields = true
  key_in_order key jsf (field f v elems rest) =
      (not (f.is_exported && str_eq (json_field_name f) key) || sub_in_order jsf v)
      && key_in_order key jsf rest

  check_key-clean :
      (key : String) (jsf : SubRules) (s : Struct)
      → is_clean (check_key matches key jsf s) ≡ key_in_order key jsf s
  unfolding check_key
  check_key-clean key jsf no_fields = refl
  check_key-clean key jsf (field f v elems rest) = ground (
    arith,
    both-clean (named key (violations (check_sub_field matches jsf v)))
        (check_key matches key jsf rest),
    named-clean key (violations (check_sub_field matches jsf v)),
    check_sub_field-accepts jsf v,
    check_key-clean key jsf rest,
  )

  abbrev keys_in_order : Dict SubRules → Struct → Bool
  keys_in_order [] s = true
  keys_in_order (k ∷ jsonb) s = key_in_order k.0 k.1 s && keys_in_order jsonb s

  check_keys-clean :
      (jsonb : Dict SubRules) (s : Struct)
      → is_clean (check_keys matches jsonb s) ≡ keys_in_order jsonb s
  check_keys-clean [] s = refl
  check_keys-clean (k ∷ jsonb) s = ground (
    arith,
    both-clean (check_key matches k.0 k.1 s) (check_keys matches jsonb s),
    check_key-clean k.0 k.1 s,
    check_keys-clean jsonb s,
  )

  abbrev jsonb_in_order : TableRules → Struct → Bool
  jsonb_in_order [] s = true
  jsonb_in_order (c ∷ entry) s = keys_in_order c.1.jsonb s && jsonb_in_order entry s

  check_jsonb-clean :
      (entry : TableRules) (s : Struct)
      → is_clean (check_jsonb matches entry s) ≡ jsonb_in_order entry s
  unfolding check_jsonb
  check_jsonb-clean [] s = refl
  check_jsonb-clean (c ∷ entry) s = ground (
    arith,
    both-clean (check_keys matches c.1.jsonb s) (check_jsonb matches entry s),
    check_keys-clean c.1.jsonb s,
    check_jsonb-clean entry s,
  )

  abbrev column_in_order : Option ColumnRules → FieldValue → Bool
  column_in_order none v = true
  column_in_order (some c) v = in_order matches c.rules v

  check_column-clean :
      (c : Option ColumnRules) (name : String) (v : FieldValue)
      → is_clean (check_column matches c name v) ≡ column_in_order c v
  check_column-clean none name v = refl
  check_column-clean (some c) name v =
      named-clean name (check_field matches c.rules v) ∙ check_field-accepts matches c.rules v

  module _ (table : String → Option TableRules) where
    unfoldable mutual
      unfolding lookup json_field_name

      -- Every exported field is in order by the rules of its column, and every element of a slice that names a
      -- table is a struct in order by that table's.
      pub fields_in_order : Struct → TableRules → Bool
      fields_in_order no_fields entry = true
      fields_in_order (field f v elems rest) entry =
          (not f.is_exported
            || (column_in_order (lookup (json_field_name f) entry) v
                && elements_in_order elems (nested_table table f)))
          && fields_in_order rest entry

      pub elements_in_order : Elements → Option (Option TableRules) → Bool
      elements_in_order elems none = true
      elements_in_order no_elements (some t) = true
      elements_in_order (nil_element rest) (some t) = false
      elements_in_order (struct_element s rest) (some none) = false
      elements_in_order (struct_element s rest) (some (some entry)) =
          fields_in_order s entry
          && jsonb_in_order entry s
          && elements_in_order rest (some (some entry))

    mutual
      unfolding walk_fields fields_in_order

      walk_fields-clean :
          (s : Struct) (entry : TableRules)
          → is_clean (walk_fields matches table s entry) ≡ fields_in_order s entry
      walk_fields-clean no_fields entry = refl
      walk_fields-clean (field f v elems rest) entry =
          let name = json_field_name f in
          let c = check_column matches (lookup name entry) name v in
          let e = walk_elements matches table elems (nested_table table f) name 0 in
          ground (
            arith,
            both-clean (both c e) (walk_fields matches table rest entry),
            both-clean c e,
            check_column-clean (lookup name entry) name v,
            walk_elements-clean elems (nested_table table f) name 0,
            walk_fields-clean rest entry,
          )

      walk_elements-clean :
          (elems : Elements) (t : Option (Option TableRules)) (name : String) (j : ℕ)
          → is_clean (walk_elements matches table elems t name j) ≡ elements_in_order elems t
      walk_elements-clean elems none name j = refl
      walk_elements-clean no_elements (some t) name j = refl
      walk_elements-clean (nil_element rest) (some t) name j = refl
      walk_elements-clean (struct_element s rest) (some none) name j = refl
      walk_elements-clean (struct_element s rest) (some (some entry)) name j =
          let w = both (walk_fields matches table s entry) (check_jsonb matches entry s) in
          ground (
            arith,
            both-clean (at_element name j w)
                (walk_elements matches table rest (some (some entry)) name (j + 1)),
            element-clean name j w,
            both-clean (walk_fields matches table s entry) (check_jsonb matches entry s),
            walk_fields-clean s entry,
            check_jsonb-clean entry s,
            walk_elements-clean rest (some (some entry)) name (j + 1),
          )

    abbrev pub payload_in_order : Struct → Option TableRules → Bool
    payload_in_order s none = true
    payload_in_order s (some entry) = fields_in_order s entry && jsonb_in_order entry s

    by_rules-clean :
        (s : Struct) (t : Option TableRules)
        → is_clean (by_rules matches table s t) ≡ payload_in_order s t
    unfolding validate_struct
    by_rules-clean s none = refl
    by_rules-clean s (some entry) = ground (
      arith,
      both-clean (walk_fields matches table s entry) (check_jsonb matches entry s),
      walk_fields-clean s entry,
      check_jsonb-clean entry s,
    )

    -- A payload passes the check exactly if the rules of its table, if there are any, find it in order: each
    -- exported field by its column's, each element of a slice that names a table by that one's, and each value
    -- that a key of a JSON column names by the key's. Of a column's rules these are that it is required, its
    -- lengths in bytes, its pattern and its bounds; what needs two columns, and a range, are not looked at.
    pub validate-accepts :
        (s : Struct) (key : String)
        → is_clean (validate matches table s key) ≡ payload_in_order s (table key)
    unfolding validate
    validate-accepts s key = by_rules-clean s (table key)
