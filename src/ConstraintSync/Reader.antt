-- ===== src/ConstraintSync/Reader.antt =====
-- internal/platform/constraints/constraints.go: the types that the file is read into, by their tags.
use yop_pms.Prelude.{
  ◌≡◌, String, Bool, true, false, Option, none, some, List, [], ◌∷◌, map, ◌&&◌, not,
}
use yop_pms.Prelude.Dict.{Dict, lookup, keys, contains_text}
use yop_pms.Availability.{ℤ}
use yop_pms.ConstraintSync.{SubField, Comparison}
use yop_pms.ConstraintSync.Yaml.{Tag, Node, pairs_of, items_of, text_node}

-- constraints.Field, with its map of keys as a function.
pub record Field : Type 0 where
  pub required : Bool
  pub max_length : Option ℤ
  pub min_length : Option ℤ
  pub exact_length : Option ℤ
  pub min : Option ℤ
  pub max : Option ℤ
  pub pattern : Option String
  pub required_with : String
  pub valid_range : Bool
  pub jsonb : String → Option SubField

-- constraints.TableEntry
pub record Entry : Type 0 where
  pub fields : String → Option Field
  pub comparisons : List Comparison
  pub notes : List String

-- What decoding a node takes from yaml.v3, with strconv.Itoa: the root of a document, the value of a
-- mapping's key, the items of a sequence, and a scalar as a Boolean, a number or a text. `plain` are the texts
-- that it takes for nothing but text.
pub record Decoder : Type 0 where
  pub root : Node → Node
  pub value_at : String → Node → Option Node
  pub items : Node → List Node
  pub as_bool : Node → Bool
  pub as_int : Node → ℤ
  pub as_text : Node → String
  pub itoa : ℤ → String
  pub plain : String → Bool

-- No text stands twice.
abbrev pub distinct : List String → Bool
distinct [] = true
distinct (s ∷ ss) = not (contains_text s ss) && distinct ss

abbrev pub all_plain : (String → Bool) → List String → Bool
all_plain plain [] = true
all_plain plain (s ∷ ss) = plain s && all_plain plain ss

-- A tree that is encoded and decoded again.
pub record IsDecoder (d : Decoder) : Type 0 where
  pub root_lem : (n : Node) → d.root (Node.document (items_of (n ∷ []))) ≡ n
  pub value_at_lem :
      (k : String) (ps : Dict Node)
      → distinct (keys ps) ≡ true
      → all_plain d.plain (keys ps) ≡ true
      → d.value_at k (Node.mapping (pairs_of ps)) ≡ lookup k ps
  pub items_lem : (ns : List Node) → d.items (Node.sequence (items_of ns)) ≡ ns
  pub as_bool_lem : d.as_bool (Node.scalar Tag.bool_tag "true") ≡ true
  pub as_int_lem : (n : ℤ) → d.as_int (Node.scalar Tag.int_tag (d.itoa n)) ≡ n
  pub as_text_lem : (s : String) → d.plain s ≡ true → d.as_text (text_node s) ≡ s

abbrev pub mapped : {A B : Type 0} → (A → B) → Option A → Option B
mapped f none = none
mapped f (some a) = some (f a)

module _ (d : Decoder) where
  abbrev pub flag : Option Node → Bool
  flag none = false
  flag (some n) = d.as_bool n

  abbrev pub text_or_empty : Option Node → String
  text_or_empty none = ""
  text_or_empty (some n) = d.as_text n

  abbrev below : {A : Type 0} → (Node → Option A) → Option Node → Option A
  below f none = none
  below f (some n) = f n

  abbrev pub read_sub_field : Node → SubField
  read_sub_field n = record {
    required = flag (d.value_at "required" n);
    pattern = mapped d.as_text (d.value_at "pattern" n);
    min = mapped d.as_int (d.value_at "min" n);
    max = mapped d.as_int (d.value_at "max" n);
  }

  abbrev pub read_jsonb : String → Option Node → Option SubField
  read_jsonb k none = none
  read_jsonb k (some n) = mapped read_sub_field (d.value_at k n)

  abbrev pub read_field : Node → Field
  read_field n = record {
    required = flag (d.value_at "required" n);
    max_length = mapped d.as_int (d.value_at "max_length" n);
    min_length = mapped d.as_int (d.value_at "min_length" n);
    exact_length = mapped d.as_int (d.value_at "exact_length" n);
    min = mapped d.as_int (d.value_at "min" n);
    max = mapped d.as_int (d.value_at "max" n);
    pattern = mapped d.as_text (d.value_at "pattern" n);
    required_with = text_or_empty (d.value_at "required_with" n);
    valid_range = flag (d.value_at "valid_range" n);
    jsonb = λ k. read_jsonb k (d.value_at "jsonb" n);
  }

  abbrev pub read_comparison : Node → Comparison
  read_comparison n = record {
    field = text_or_empty (d.value_at "field" n);
    operator = text_or_empty (d.value_at "operator" n);
    other = text_or_empty (d.value_at "other" n);
  }

  abbrev pub items_or_none : Option Node → List Node
  items_or_none none = []
  items_or_none (some n) = d.items n

  abbrev pub read_fields : String → Option Node → Option Field
  read_fields k none = none
  read_fields k (some n) = mapped read_field (d.value_at k n)

  abbrev pub read_entry : Node → Entry
  read_entry n = record {
    fields = λ f. read_fields f (d.value_at "fields" n);
    comparisons = map read_comparison (items_or_none (d.value_at "comparisons" n));
    notes = map d.as_text (items_or_none (d.value_at "notes" n));
  }

  abbrev pub read_constraints : String → Option Node → Option Entry
  read_constraints key none = none
  read_constraints key (some n) = mapped read_entry (d.value_at key n)

  -- Table, of the file that a document is
  unfoldable pub read_table : Node → String → Option Entry
  read_table doc key = read_constraints key (d.value_at "constraints" (d.root doc))
