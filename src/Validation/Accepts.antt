-- ===== src/Validation/Accepts.antt =====
-- Which fields internal/platform/validation/validate.go accepts, by an independent description.
use Prim.Native.String.{len}
use text.Mathlib.Text.{◌==◌ as str_eq}
use yop_pms.Prelude.{
  ◌≡◌, String, Bool, true, false, not, ◌&&◌, Option, none, some, [], ◌∷◌, ltb, ◌==◌, arith,
}
use yop_pms.Validation.{
  text_value, signed_value, unsigned_value, float_value, bool_value, length_value, uuid_value,
  opaque_value, FieldValue, nil_pointer, present, Rules, Checked, violations, panics, ltb_ℤ,
  is_zero, is_numeric, check_string, check_int, check_field,
}

-- No violation was found.
abbrev pub accepts : Checked → Bool
accepts (violations []) = true
accepts (violations (v ∷ vs)) = false
accepts panics = false

-- A bound, if there is one, holds.
abbrev pub within : {A : Type 0} → (A → Bool) → Option A → Bool
within p none = true
within p (some a) = p a

module _ (matches : String → String → Bool) where
  -- A text is as long as it may be and matches; an integer lies in its range; any other value is
  -- there where it must be. No unsigned integer is in order.
  abbrev pub in_order : Rules → FieldValue → Bool
  in_order r nil_pointer = not r.required
  in_order r (present (text_value s)) =
      not (r.required && str_eq s "")
      && (within (λ n. not (ltb n (len s))) r.max_length
          && (within (λ n. not (ltb (len s) n)) r.min_length
              && (within (λ n. len s == n) r.exact_length && within (λ p. matches p s) r.pattern)))
  in_order r (present (signed_value n)) =
      within (λ m. not (ltb_ℤ n m)) r.min && within (λ m. not (ltb_ℤ m n)) r.max
  in_order r (present (unsigned_value n)) = false
  in_order r (present v) = not (r.required && is_zero v)

  -- A field passes the check exactly if it is in order.
  pub check_field-accepts :
      (r : Rules) (v : FieldValue) → accepts (check_field matches r v) ≡ in_order r v
  unfolding check_field check_string check_int is_zero is_numeric
  check_field-accepts r nil_pointer = ground arith
  check_field-accepts r (present (text_value s)) = ground arith
  check_field-accepts r (present (signed_value n)) = ground arith
  check_field-accepts r (present (unsigned_value n)) = ground arith
  check_field-accepts r (present (float_value z)) = ground arith
  check_field-accepts r (present (bool_value b)) = ground arith
  check_field-accepts r (present (length_value n)) = ground arith
  check_field-accepts r (present (uuid_value u)) = ground arith
  check_field-accepts r (present opaque_value) = ground arith
