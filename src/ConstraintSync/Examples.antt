-- ===== src/ConstraintSync/Examples.antt =====
-- A table's rows through the tool and back: matchers, a decoder and a sort that run.
use Prim.Native.String.{◌++◌ as append, compare, count}
use text.Mathlib.Text.{◌==◌ as str_eq, is_lt}
use text.Mathlib.TextLemmas.{length-append}
use mathlib.Core.List.{Permᴰ}
use yop_pms.Prelude.{
  ℕ, zero, suc, ◌+◌, ◌*◌, ◌/◌, ◌%◌, ◌≡◌, refl, ◌∙◌, ap, String, Bool, true, false, not, Option,
  none, some, List, [], ◌∷◌, map, ◌==◌, if◌then◌else◌, any_where, arith, coalesce,
}
use yop_pms.Prelude.Dict.{Dict, lookup, keys, contains_text}
use yop_pms.Availability.{ℤ, pos, negsuc}
use yop_pms.ConstraintSync.{ConstraintMap, TableEntry, no_entry}
use yop_pms.ConstraintSync.Parens.{strip_outer_parens, strip_once}
use yop_pms.ConstraintSync.Parens.Balance.{balanced, strip_outer_parens-strips}
use yop_pms.ConstraintSync.Clause.{Matchers}
use yop_pms.ConstraintSync.Collect.{CheckRow, NullRow, GistRow, collect}
use yop_pms.ConstraintSync.Required.{is_null_row_of}
use yop_pms.ConstraintSync.Yaml.{
  Node, Nodes, ◌▸◌, pairs_of, items_of, write_yaml, present, written, entry_at, field_at,
}
use yop_pms.ConstraintSync.Reader.{Decoder, IsDecoder, read_table}
use yop_pms.ConstraintSync.Loaded.{loaded_entry, no_rules, is_plain}
use yop_pms.ConstraintSync.RoundTrip.{read_table-write_yaml}
use yop_pms.ConstraintSync.Loading.{is_asked, collect-is_asked}
use yop_pms.ConstraintSync.Typescript.{TsTable, TsField, write_ts, ts_fields}
use yop_pms.ConstraintSync.Agreement.{write_ts-agrees}

-- A sort by insertion.
abbrev insert : String → List String → List String
insert s [] = s ∷ []
insert s (t ∷ ts) = let rest = insert s ts in if is_lt (compare s t) then s ∷ t ∷ ts else t ∷ rest

abbrev sort : List String → List String
sort [] = []
sort (s ∷ ss) = insert s (sort ss)

chosen :
    (b : Bool) {xs ys zs : List String}
    → Permᴰ xs zs
    → Permᴰ ys zs
    → Permᴰ (if b then xs else ys) zs
chosen true p q = p
chosen false p q = q

perm_refl : (l : List String) → Permᴰ l l
perm_refl [] = Permᴰ.nil
perm_refl (x ∷ xs) = Permᴰ.cons refl (perm_refl xs)

insert-perm : (s : String) (ts : List String) → Permᴰ (insert s ts) (s ∷ ts)
insert-perm s [] = perm_refl _
insert-perm s (t ∷ ts) =
    chosen (is_lt (compare s t)) (perm_refl _)
      (Permᴰ.trans (Permᴰ.cons refl (insert-perm s ts)) (Permᴰ.swap refl refl))

sort-perm : (ss : List String) → Permᴰ (sort ss) ss
sort-perm [] = Permᴰ.nil
sort-perm (s ∷ ss) = Permᴰ.trans (insert-perm s (sort ss)) (Permᴰ.cons refl (sort-perm ss))

-- A number in tally marks: an even number of them from zero on, and an odd one below zero.
abbrev tally : ℕ → String
tally zero = ""
tally (suc n) = append "1" (tally n)

count-tally : (n : ℕ) → count (tally n) ≡ n
count-tally zero = refl
count-tally (suc n) = omega (arith, length-append "1" (tally n), count-tally n)

abbrev itoa : ℤ → String
itoa (pos n) = tally (2 * n)
itoa (negsuc n) = tally (2 * n + 1)

abbrev counted : ℕ → ℤ
counted n = if n % 2 == 0 then pos (n / 2) else negsuc (n / 2)

counted-even : (n : ℕ) → counted (2 * n) ≡ pos n
counted-even n = ground arith

counted-odd : (n : ℕ) → counted (2 * n + 1) ≡ negsuc n
counted-odd n = ground arith

abbrev text_of : Node → String
text_of (Node.scalar t s) = s
text_of _ = ""

abbrev value_among : String → Nodes → Option Node
value_among k Nodes.no_nodes = none
value_among k (Node.scalar t j ▸ v ▸ rest) = if str_eq k j then some v else value_among k rest
value_among k _ = none

abbrev value_at : String → Node → Option Node
value_at k (Node.mapping ns) = value_among k ns
value_at k _ = none

abbrev items_in : Nodes → List Node
items_in Nodes.no_nodes = []
items_in (n ▸ ns) = n ∷ items_in ns

abbrev items : Node → List Node
items (Node.sequence ns) = items_in ns
items _ = []

abbrev root : Node → Node
root (Node.document (n ▸ ns)) = n
root n = n

abbrev decoder : Decoder
decoder = record {
  root = root;
  value_at = value_at;
  items = items;
  as_bool = λ n. str_eq (text_of n) "true";
  as_int = λ n. counted (count (text_of n));
  as_text = text_of;
  itoa = itoa;
  plain = λ s. not (contains_text s ("" ∷ "~" ∷ "null" ∷ "Null" ∷ "NULL" ∷ []));
}

value_among-pairs : (k : String) (ps : Dict Node) → value_among k (pairs_of ps) ≡ lookup k ps
unfolding pairs_of lookup
value_among-pairs k [] = refl
value_among-pairs k ((j, v) ∷ ps) = ground (arith, value_among-pairs k ps)

items_in-items : (ns : List Node) → items_in (items_of ns) ≡ ns
unfolding items_of
items_in-items [] = refl
items_in-items (n ∷ ns) = ap (λ l. n ∷ l) (items_in-items ns)

counted-itoa : (n : ℤ) → counted (count (itoa n)) ≡ n
counted-itoa (pos n) = ap counted (count-tally (2 * n)) ∙ counted-even n
counted-itoa (negsuc n) = ap counted (count-tally (2 * n + 1)) ∙ counted-odd n

decoder-IsDecoder : IsDecoder decoder
unfolding items_of
decoder-IsDecoder = record {
  root_lem = λ n. refl;
  value_at_lem = λ k ps u p. value_among-pairs k ps;
  items_lem = items_in-items;
  as_bool_lem = refl;
  as_int_lem = counted-itoa;
  as_text_lem = λ s h. refl;
}

-- The expressions, on the clauses of one table.
abbrev matchers : Matchers
matchers = record {
  char_len_lte = λ s. if str_eq s "char_length(notes) <= 50" then some ("notes", "50") else none;
  char_len_between = λ s. none;
  char_len_eq = λ s. none;
  regex_all = λ s. if str_eq s "code ~ '^[A-Z]+$'" then ("code", "^[A-Z]+$") ∷ [] else [];
  between = λ s. none;
  gte = λ s. none;
  gt = λ s. if str_eq s "nights > 0" then some ("nights", "0") else none;
  range_valid =
      λ s. if str_eq s "lower(stay) < upper(stay)" then some ("stay", "stay", "", "") else none;
  cross_col = λ s. if str_eq s "max_los > min_los" then some ("max_los", ">", "min_los") else none;
  is_not_null = λ s. if str_eq s "pair" then "a" ∷ "b" ∷ [] else [];
  without_not_null = λ s. s;
  is_null = λ s. if str_eq s "pair" then "b" ∷ "a" ∷ "b" ∷ [] else [];
  has_key = λ s. if str_eq s "meta ? 'kind'" then ("meta", "kind") ∷ [] else [];
  in_list = λ s. [];
  any_array = λ s. [];
  quoted = λ s. [];
  atoi = λ s. if str_eq s "50" then (50, true) else (0, str_eq s "0");
  sort_strings = sort;
  trim_space = λ s. s;
  to_upper = λ s. s;
}

abbrev check : Option String → String → CheckRow
check col clause = record {
  schema = "public";
  table = "bookings";
  constraint_name = "c";
  column_name = col;
  check_clause = clause;
}

abbrev checks : List CheckRow
checks =
    check (some "notes") "((char_length(notes) <= 50))"
    ∷ check none "code ~ '^[A-Z]+$'"
    ∷ check (some "nights") "(nights > 0)"
    ∷ check none "lower(stay) < upper(stay)"
    ∷ check none "max_los > min_los"
    ∷ check none "(pair)"
    ∷ check none "meta ? 'kind'"
    ∷ check (some "password_hash") "char_length(notes) <= 50"
    ∷ check none "(notes IS NOT NULL)"
    ∷ check none "something else"
    ∷ []

abbrev null_column : String → NullRow
null_column col = record { schema = "public"; table = "bookings"; column = col }

abbrev nulls : List NullRow
nulls = null_column "id" ∷ null_column "notes" ∷ null_column "code" ∷ []

abbrev gists : List GistRow
gists = record { schema = "public"; table = "ledger"; name = "no_overlap"; def = "EXCLUDE" } ∷ []

abbrev gathered_map : ConstraintMap
gathered_map = collect matchers checks nulls gists

gathered_keys :
    map {B = String × List String} (λ e. (e.0, keys e.1.fields)) gathered_map
    ≡ ("public.bookings", "notes" ∷ "code" ∷ "nights" ∷ "stay" ∷ "a" ∷ "b" ∷ "meta" ∷ [])
      ∷ ("public.ledger", [])
      ∷ []
unfolding collect keys
gathered_keys = refl

gathered_plain : is_plain decoder.plain gathered_map ≡ true
unfolding collect is_plain
gathered_plain = refl

strip_outer_parens-strips_example :
    (strip_once (strip_outer_parens (λ s. s) "((lower(stay)))") ≡ none)
    × (balanced 0 "((lower(stay)))" ≡ true
        → balanced 0 (strip_outer_parens (λ s. s) "((lower(stay)))") ≡ true)
strip_outer_parens-strips_example =
    strip_outer_parens-strips (λ s. s) (λ s. omega arith) (λ n s. refl) "((lower(stay)))"

stripped : strip_outer_parens (λ s. s) "((lower(stay)))" ≡ "lower(stay)"
unfolding strip_outer_parens
stripped = refl

read_table-write_yaml_example :
    coalesce (read_table decoder (write_yaml itoa sort gathered_map) "public.bookings") no_rules
    ≡ loaded_entry (coalesce (lookup "public.bookings" gathered_map) no_entry)
read_table-write_yaml_example =
    read_table-write_yaml decoder decoder-IsDecoder refl sort sort-perm gathered_map
      "public.bookings" gathered_plain

collect-is_asked_example :
    is_asked "notes" (read_table decoder (write_yaml itoa sort gathered_map) "public.bookings")
    ≡ any_where (is_null_row_of "public.bookings" "notes") nulls
collect-is_asked_example =
    collect-is_asked decoder decoder-IsDecoder refl sort sort-perm matchers checks nulls gists
      "public.bookings" "notes" gathered_plain

asked_notes : any_where (is_null_row_of "public.bookings" "notes") nulls ≡ true
unfolding any_where is_null_row_of
asked_notes = refl

write_ts-agrees_example :
    (map (λ (t : TsTable). t.name) (write_ts itoa (λ s. s) sort gathered_map)
      ≡ keys (present (written sort (entry_at itoa sort) gathered_map)))
    × ((entry : TableEntry)
        → map (λ (t : TsField). t.name) (ts_fields itoa (λ s. s) sort entry)
          ≡ keys (present (written sort (field_at itoa sort) entry.fields)))
write_ts-agrees_example = write_ts-agrees itoa (λ s. s) sort sort-perm gathered_map
