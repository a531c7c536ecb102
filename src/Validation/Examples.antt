-- ===== src/Validation/Examples.antt =====
-- The check of a payload of internal/platform/validation/validate.go at concrete values.
use text.Mathlib.Text.{◌==◌ as str_eq}
use yop_pms.Prelude.{◌≡◌, refl, String, true, false, Option, none, some, [], ◌∷◌, if◌then◌else◌}
use yop_pms.Availability.{ℤ, pos}
use yop_pms.Validation.{Rules, present, text_value, signed_value, length_value, below}
use yop_pms.Validation.Payload.{
  Declared, Struct, no_fields, field, no_elements, struct_element, SubRules, TableRules, of_field,
  of_element, no_problems, ◌▹◌, found, validate,
}
use yop_pms.Validation.Walks.{is_clean, payload_in_order, validate-accepts}

-- The rules of a currency: three letters, and required.
abbrev currency : Rules
currency = record {
  required = true;
  max_length = none;
  min_length = none;
  exact_length = some 3;
  pattern = some "GBP";
  min = none;
  max = none;
}

abbrev no_field_rules : Rules
no_field_rules = record {
  required = false;
  max_length = none;
  min_length = none;
  exact_length = none;
  pattern = none;
  min = none;
  max = none;
}

abbrev nights : Rules
nights = record no_field_rules { min = some (pos 1) }

abbrev kind : SubRules
kind = record { required = true; pattern = some "fixed"; min = none; max = none }

abbrev tables : String → Option TableRules
tables key =
    if str_eq key "operations.reservations"
    then some (
        ("currency", record { rules = currency; jsonb = [] })
        ∷ ("adjustment", record { rules = no_field_rules; jsonb = ("kind", kind) ∷ [] })
        ∷ [])
    else if str_eq key "operations.reservation_items"
    then some (("nights", record { rules = nights; jsonb = [] }) ∷ [])
    else none

abbrev plain_field : String → Declared
plain_field tag = record {
  is_exported = true;
  json_tag = tag;
  constraints_tag = none;
  is_slice = false;
}

abbrev items_field : Declared
items_field = record {
  is_exported = true;
  json_tag = "items,omitempty";
  constraints_tag = some "operations.reservation_items";
  is_slice = true;
}

abbrev item : ℤ → Struct
item n = field (plain_field "nights") (present (signed_value n)) no_elements no_fields

abbrev payload : ℤ → Struct
payload n = field (plain_field "currency") (present (text_value "GBP")) no_elements (
    field (plain_field "kind") (present (text_value "fixed")) no_elements (
      field items_field (present (length_value 2))
        (struct_element (item (pos 2)) (struct_element (item n) no_elements)) no_fields))

validate-accepts_example :
    is_clean (validate str_eq tables (payload (pos 0)) "operations.reservations")
    ≡ payload_in_order str_eq tables (payload (pos 0)) (tables "operations.reservations")
validate-accepts_example =
    validate-accepts str_eq tables (payload (pos 0)) "operations.reservations"

refused :
    validate str_eq tables (payload (pos 0)) "operations.reservations"
    ≡ found (of_element "items" 1 (of_field "nights" (below (pos 1)) ▹ no_problems) ▹ no_problems)
unfolding validate
refused = refl

accepted : validate str_eq tables (payload (pos 3)) "operations.reservations" ≡ found no_problems
unfolding validate
accepted = refl
