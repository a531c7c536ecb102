-- ===== src/Validation.antt =====
-- internal/platform/validation/validate.go: the rules for one field of a payload.
pub mod Accepts
pub mod Payload
pub mod Walks
mod Examples
use Prim.Native.String.{len}
use text.Mathlib.Text.{◌==◌ as str_eq}
use yop_pms.Prelude.{
  ℕ, String, Bool, true, false, not, ◌&&◌, ◌||◌, Option, none, some, List, [], ◌∷◌, ◌++◌, ltb, leb,
  ◌==◌, if◌then◌else◌,
}
use yop_pms.Availability.{ℤ, pos, negsuc}

-- What reflection finds in a field, by kind: a text, a signed or an unsigned integer, a floating
-- number by whether it is zero, a Boolean, a slice or map by its length, a UUID, or anything else.
pub data Value : Type 0 where
  text_value : String → Value
  signed_value : ℤ → Value
  unsigned_value : ℕ → Value
  float_value : Bool → Value
  bool_value : Bool → Value
  length_value : ℕ → Value
  uuid_value : ℕ → Value
  opaque_value : Value

-- A field: a nil pointer, or a value, behind a pointer or not.
pub data FieldValue : Type 0 where
  nil_pointer : FieldValue
  present : Value → FieldValue

-- constraints.Field, less required_with and valid_range, which the validator does not look at (nor does it at
-- the comparisons of a table). A length is the number of bytes, as Go's len gives it.
pub record Rules : Type 0 where
  pub required : Bool
  pub max_length : Option ℕ
  pub min_length : Option ℕ
  pub exact_length : Option ℕ
  pub pattern : Option String
  pub min : Option ℤ
  pub max : Option ℤ

pub data Violation : Type 0 where
  is_required no_match : Violation
  too_long too_short not_exact : ℕ → Violation
  below above : ℤ → Violation

-- What a check comes to; `fv.Int()` panics for an unsigned kind.
pub data Checked : Type 0 where
  violations : List Violation → Checked
  panics : Checked

abbrev pub ltb_ℤ : ℤ → ℤ → Bool
ltb_ℤ (pos a) (pos b) = ltb a b
ltb_ℤ (pos a) (negsuc b) = false
ltb_ℤ (negsuc a) (pos b) = true
ltb_ℤ (negsuc a) (negsuc b) = ltb b a

-- isZero
unfoldable pub is_zero : Value → Bool
is_zero (text_value s) = str_eq s ""
is_zero (signed_value (pos n)) = n == 0
is_zero (signed_value (negsuc n)) = false
is_zero (unsigned_value n) = n == 0
is_zero (float_value zero) = zero
is_zero (bool_value b) = not b
is_zero (length_value n) = n == 0
is_zero (uuid_value u) = u == 0
is_zero opaque_value = false

-- isNumeric
unfoldable pub is_numeric : Value → Bool
is_numeric (signed_value n) = true
is_numeric (unsigned_value n) = true
is_numeric _ = false

-- Each rule: the bound, if the value breaks it.
abbrev pub breaks : {A : Type 0} → (A → Bool) → Option A → Bool
breaks p none = false
breaks p (some a) = p a

abbrev bound : {A : Type 0} → (A → Violation) → Violation → Option A → Violation
bound f v none = v
bound f v (some a) = f a

module _ (matches : String → String → Bool) where
  -- checkString: the first rule that the text breaks. `matches` is constraints.MatchPattern.
  unfoldable pub check_string : Rules → String → List Violation
  check_string r s =
      if breaks (λ n. ltb n (len s)) r.max_length
      then bound too_long is_required r.max_length ∷ []
      else if breaks (λ n. ltb (len s) n) r.min_length
      then bound too_short is_required r.min_length ∷ []
      else if breaks (λ n. not (len s == n)) r.exact_length
      then bound not_exact is_required r.exact_length ∷ []
      else if breaks (λ p. not (matches p s)) r.pattern
      then no_match ∷ []
      else []

  -- checkInt
  unfoldable pub check_int : Rules → ℤ → List Violation
  check_int r n =
      if breaks (λ m. ltb_ℤ n m) r.min
      then bound below is_required r.min ∷ []
      else if breaks (λ m. ltb_ℤ m n) r.max
      then bound above is_required r.max ∷ []
      else []

  abbrev missing : Bool → List Violation
  missing true = is_required ∷ []
  missing false = []

  abbrev by_kind : Rules → Value → List Violation → Checked
  by_kind r (text_value s) before = violations (before ++ check_string r s)
  by_kind r (signed_value n) before = violations (before ++ check_int r n)
  by_kind r (unsigned_value n) before = panics
  by_kind r _ before = violations before

  -- checkField
  unfoldable pub check_field : Rules → FieldValue → Checked
  unfolding is_zero is_numeric check_string check_int
  check_field r nil_pointer = violations (missing r.required)
  check_field r (present v) = by_kind r v (missing (r.required && not (is_numeric v) && is_zero v))
