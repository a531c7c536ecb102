-- ===== src/ConstraintSync/Yaml.antt =====
-- cmd/tools/sync-constraints/write_yaml.go: the tree of nodes that the tool hands to the encoder of yaml.v3.
use text.Mathlib.Text.{◌==◌ as str_eq}
use yop_pms.Prelude.{
  is_nil, String, Bool, true, false, Option, none, some, List, [], ◌∷◌, map, if◌then◌else◌,
}
use yop_pms.Prelude.Dict.{Dict, lookup, keys}
use yop_pms.Availability.{ℤ}
use yop_pms.ConstraintSync.{
  SubField, FieldConstraint, Comparison, TableEntry, ConstraintMap, is_empty,
}

-- A scalar's Tag, where it is set.
pub data Tag : Type 0 where
  no_tag bool_tag int_tag : Tag

-- yaml.Node, by its Kind, with its Content.
mutual
  pub data Node : Type 0 where
    scalar : Tag → String → Node
    mapping sequence document : Nodes → Node

  pub data Nodes : Type 0 where
    no_nodes : Nodes
    ◌▸◌ : Node → Nodes → Nodes

infixr 40 ◌▸◌
-- appendBoolNode, appendIntNode and appendStrNode: what they append to a key, if anything.
abbrev pub bool_node : Bool → Option Node
bool_node true = some (Node.scalar Tag.bool_tag "true")
bool_node false = none

abbrev pub str_node : Option String → Option Node
str_node none = none
str_node (some s) = some (Node.scalar Tag.no_tag s)

abbrev pub unless_empty : String → Option String
unless_empty s = if str_eq s "" then none else some s

-- Keys and values appended one pair after the other, those without a value left out.
unfoldable pub present : List (String × Option Node) → Dict Node
present [] = []
present ((k, none) ∷ ps) = present ps
present ((k, some v) ∷ ps) = (k, v) ∷ present ps

unfoldable pub pairs_of : Dict Node → Nodes
pairs_of [] = Nodes.no_nodes
pairs_of ((k, v) ∷ ps) = Node.scalar Tag.no_tag k ▸ v ▸ pairs_of ps

unfoldable pub items_of : List Node → Nodes
items_of [] = Nodes.no_nodes
items_of (n ∷ ns) = n ▸ items_of ns

-- A mapping node filled by these appends.
abbrev pub mapping_of : List (String × Option Node) → Node
mapping_of ps = Node.mapping (pairs_of (present ps))

-- A node that its parent takes only with something in it.
abbrev pub filled : List (String × Option Node) → Option Node
filled ps = if is_nil (present ps) then none else some (mapping_of ps)

abbrev pub listed : List Node → Option Node
listed [] = none
listed (n ∷ ns) = some (Node.sequence (items_of (n ∷ ns)))

abbrev pub text_node : String → Node
text_node s = Node.scalar Tag.no_tag s

-- The keys of a map, sorted, with what is written for each. `sort` is sort.Strings.
abbrev pub written :
    {V : Type 0}
    → (List String → List String)
    → (Option V → Option Node)
    → Dict V
    → List (String × Option Node)
written sort f d = map (λ k. (k, f (lookup k d))) (sort (keys d))

abbrev pub comparison_node : Comparison → Node
comparison_node cmp = mapping_of (
    ("field", some (text_node cmp.field))
    ∷ ("operator", some (text_node cmp.operator))
    ∷ ("other", some (text_node cmp.other))
    ∷ [])

-- `itoa` is strconv.Itoa.
module _ (itoa : ℤ → String) where
  abbrev pub int_node : Option ℤ → Option Node
  int_node none = none
  int_node (some n) = some (Node.scalar Tag.int_tag (itoa n))

  abbrev pub sub_field_pairs : SubField → List (String × Option Node)
  sub_field_pairs sf =
      ("required", bool_node sf.required)
      ∷ ("pattern", str_node sf.pattern)
      ∷ ("min", int_node sf.min)
      ∷ ("max", int_node sf.max)
      ∷ []

  abbrev pub sub_field_at : Option SubField → Option Node
  sub_field_at none = none
  sub_field_at (some sf) = some (mapping_of (sub_field_pairs sf))

module _ (itoa : ℤ → String) (sort : List String → List String) where
  abbrev pub jsonb_node : Dict SubField → Option Node
  jsonb_node [] = none
  jsonb_node (e ∷ d) = some (mapping_of (written sort (sub_field_at itoa) (e ∷ d)))

  abbrev pub field_pairs : FieldConstraint → List (String × Option Node)
  field_pairs fc =
      ("required", bool_node fc.required)
      ∷ ("required_with", str_node (unless_empty fc.required_with))
      ∷ ("valid_range", bool_node fc.valid_range)
      ∷ ("max_length", int_node itoa fc.max_length)
      ∷ ("min_length", int_node itoa fc.min_length)
      ∷ ("exact_length", int_node itoa fc.exact_length)
      ∷ ("min", int_node itoa fc.min)
      ∷ ("max", int_node itoa fc.max)
      ∷ ("pattern", str_node fc.pattern)
      ∷ ("jsonb", jsonb_node fc.jsonb)
      ∷ []

  abbrev pub field_at : Option FieldConstraint → Option Node
  field_at none = none
  field_at (some fc) = if is_empty fc then none else some (mapping_of (field_pairs fc))

  abbrev pub entry_pairs : TableEntry → List (String × Option Node)
  entry_pairs entry =
      ("fields", filled (written sort field_at entry.fields))
      ∷ ("comparisons", listed (map comparison_node entry.comparisons))
      ∷ ("notes", listed (map text_node entry.notes))
      ∷ []

  abbrev pub entry_at : Option TableEntry → Option Node
  entry_at none = none
  entry_at (some entry) = filled (entry_pairs entry)

  -- writeYAML, up to the document that it encodes.
  unfoldable pub write_yaml : ConstraintMap → Node
  unfolding present pairs_of items_of lookup keys is_empty
  write_yaml cm = Node.document (
      items_of
        (mapping_of (("constraints", some (mapping_of (written sort entry_at cm))) ∷ []) ∷ []))
