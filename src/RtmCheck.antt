-- ===== src/RtmCheck.antt =====
-- cmd/tools/rtmcheck/main.go: which requirements have a test.
pub mod Braces
pub mod Report
pub mod Stubs
pub mod Counts
mod Examples
use text.Mathlib.Text.{◌==◌ as str_eq, starts_with}
use yop_pms.Prelude.{
  ℕ, ◌+◌, String, Bool, true, false, not, ◌&&◌, ◌||◌, Option, none, some, List, [], ◌∷◌, ◌++◌, map,
  ltb, leb, if◌then◌else◌,
}
use yop_pms.Prelude.Dict.{contains_text}
use yop_pms.RtmCheck.Braces.{opened, closed}

-- What the tool takes from Go's libraries: the matches of the pattern of requirement IDs in a line, the
-- name that `funcDecl` finds, whether `skipCall` matches, `strings.TrimSpace`, `strings.ToUpper` and
-- `sort.Strings`.
pub record Scanner : Type 0 where
  pub ids_in : String → List String
  pub test_name : String → Option String
  pub is_skip : String → Bool
  pub trim_space : String → String
  pub to_upper : String → String
  pub sort_strings : List String → List String

-- block, its depth as the braces opened and those closed
pub record Block : Type 0 where
  pub name : String
  pub ids : List String
  pub has_skip : Bool
  pub has_non_skip : Bool
  pub opens : ℕ
  pub closes : ℕ
  pub started : Bool

-- The state of parseTestFile: `cur`, `preceding`, and `out` as pairs of an ID and a function that covers it.
pub record Scan : Type 0 where
  pub cur : Option Block
  pub preceding : List String
  pub out : List (String × String)

abbrev pub add_id : String → List String → List String
add_id id ids = if contains_text id ids then ids else id ∷ ids

abbrev pub add_ids : List String → List String → List String
add_ids [] ids = ids
add_ids (id ∷ new) ids = add_ids new (add_id id ids)

-- The pairs that flush leaves: none for a stub that only skips.
unfoldable pub covers : Block → List (String × String)
covers b = if b.has_skip && not b.has_non_skip then [] else map (λ id. (id, b.name)) b.ids

-- flush
abbrev pub flush : Scan → Scan
flush st = elim st.cur [ none ↦ st | some b ↦ record st { cur = none; out = st.out ++ covers b } ]

module _ (m : Scanner) where
  -- A line that does something, in a test that is not a stub.
  unfoldable pub is_work : String → Bool
  is_work line =
      let trimmed = m.trim_space line in
      not (str_eq trimmed "")
      && not (starts_with trimmed "//")
      && not (starts_with trimmed "func ")
      && not (str_eq trimmed "}")

  abbrev pub ids_of : List String → List String → List String
  ids_of [] ids = ids
  ids_of (line ∷ lines) ids = ids_of lines (add_ids (m.ids_in line) ids)

  -- A declaration of a test begins a block, with the IDs of the comment before it.
  unfoldable pub begin_block : String → String → List String → Block
  unfolding opened closed
  begin_block name line preceding = record {
    name = name;
    ids = ids_of preceding [];
    has_skip = false;
    has_non_skip = false;
    opens = opened line;
    closes = closed line;
    started = ltb 0 (opened line);
  }

  -- A line outside of a block.
  unfoldable pub outside : String → Option String → Scan → Scan
  unfolding begin_block
  outside line (some name) st = record st {
    cur = some (begin_block name line st.preceding);
    preceding = [];
  }
  outside line none st =
      let trimmed = m.trim_space line in
      if starts_with trimmed "//"
      then record st { preceding = st.preceding ++ (line ∷ []) }
      else if not (str_eq trimmed "")
      then record st { preceding = [] }
      else st

  -- A line in a block.
  unfoldable pub with_line : String → Block → Block
  unfolding is_work opened closed
  with_line line b = record b {
    ids = add_ids (m.ids_in line) b.ids;
    has_skip = m.is_skip line || b.has_skip;
    has_non_skip = (not (m.is_skip line) && is_work line) || b.has_non_skip;
    opens = b.opens + opened line;
    closes = b.closes + closed line;
  }

  abbrev pub starts : String → Block → Block
  starts line b = record b { started = b.started || ltb 0 (opened line) }

  unfoldable pub inside : String → Block → Scan → Scan
  unfolding with_line covers
  inside line b st =
      let next = with_line line b in
      if b.started && leb next.opens next.closes
      then flush (record st { cur = some next })
      else record st { cur = some (starts line next) }

  unfoldable pub scan_line : String → Scan → Scan
  unfolding outside inside
  scan_line line st = elim st.cur [
    | none ↦ outside line (m.test_name line) st
    | some b ↦ inside line b st
  ]

  unfoldable pub scan_lines : List String → Scan → Scan
  unfolding scan_line
  scan_lines [] st = st
  scan_lines (line ∷ lines) st = scan_lines lines (scan_line line st)

  -- parseTestFile, of a file's lines
  unfoldable pub parse_test_file : List String → List (String × String)
  unfolding scan_lines covers
  parse_test_file lines =
      (flush (scan_lines lines (record { cur = none; preceding = []; out = [] }))).out
