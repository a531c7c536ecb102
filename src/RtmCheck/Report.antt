-- ===== src/RtmCheck/Report.antt =====
-- The rest of cmd/tools/rtmcheck/main.go: the lists of IDs, and the report.
use Prim.Native.String.{len, slice, ◌++◌ as append}
use text.Mathlib.Text.{◌==◌ as str_eq, starts_with, find?}
use yop_pms.Prelude.{
  ℕ, ◌-◌, String, Bool, not, ◌&&◌, ◌||◌, Option, none, some, List, [], ◌∷◌, ◌++◌, leb, ◌==◌,
  if◌then◌else◌, length, any_where, select_where,
}
use yop_pms.Prelude.Dict.{contains_text}
use yop_pms.RtmCheck.{Scanner, parse_test_file}

-- A file as it is opened and scanned: its lines, or an error.
abbrev pub Opened : Type 0
Opened = Option (List String)

-- strings.CutSuffix(p, "*")
abbrev pub cut_star : String → Option String
cut_star p =
    if leb 1 (len p) && str_eq (slice p (len p - 1) (len p)) "*"
    then some (slice p 0 (len p - 1))
    else none

abbrev matches_pattern : String → String → Option String → Bool
matches_pattern id p (some prefix) = starts_with id prefix
matches_pattern id p none = str_eq id p

-- isDeferred
unfoldable pub is_deferred : String → List String → Bool
is_deferred id patterns = any_where (λ p. matches_pattern id p (cut_star p)) patterns

-- The loop of parseRTM over the matches: those that are new.
unfoldable pub unseen : List String → List String → List String
unseen seen [] = []
unseen seen (id ∷ ids) =
    let rest = unseen (if contains_text id seen then seen else id ∷ seen) ids in
    if contains_text id seen then rest else id ∷ rest

-- The flags.
pub record Flags : Type 0 where
  pub family : String
  pub strict : Bool

-- What the tool prints, and its exit status.
pub record Report : Type 0 where
  pub missing : List String
  pub covered : ℕ
  pub total : ℕ
  pub exit_code : ℕ

-- What parseDeferred meets: no file, which main passes over, a file that cannot be read, or lines.
pub data DeferredFile : Type 0 where
  absent unreadable : DeferredFile
  lines_of : List String → DeferredFile

abbrev pub is_covered : String → List (String × String) → Bool
is_covered id covered = any_where (λ c. str_eq id c.0) covered

module _ (m : Scanner) where
  abbrev pub all_ids : List String → List String
  all_ids [] = []
  all_ids (line ∷ lines) = m.ids_in line ++ all_ids lines

  -- parseRTM
  unfoldable pub parse_rtm : List String → List String
  unfolding unseen
  parse_rtm lines = m.sort_strings (unseen [] (all_ids lines))

  -- A line of the deferred list: what stands before a '#'.
  abbrev deferred_line : String → String
  deferred_line raw =
      let line = m.trim_space raw in
      elim (find? line "#") [ none ↦ line | some i ↦ m.trim_space (slice line 0 i) ]

  -- parseDeferred
  unfoldable pub parse_deferred : List String → List String
  parse_deferred [] = []
  parse_deferred (raw ∷ lines) =
      let rest = parse_deferred lines in
      if str_eq (deferred_line raw) "" then rest else deferred_line raw ∷ rest

  -- inFamily
  unfoldable pub in_family : String → String → Bool
  in_family id fam = starts_with id (append "R-RES-" (append (m.to_upper fam) "-"))

  -- scanTests, over the files that the walk of the trees finds with the name of a test.
  unfoldable pub scan_tests : List Opened → Option (List (String × String))
  unfolding parse_test_file
  scan_tests [] = some []
  scan_tests (none ∷ files) = none
  scan_tests (some lines ∷ files) = elim (scan_tests files) [
    | none ↦ none
    | some covered ↦ some (parse_test_file m lines ++ covered)
  ]

  unfoldable pub in_scope : Flags → List String → String → Bool
  unfolding is_deferred in_family any_where
  in_scope flags deferred id =
      (str_eq flags.family "" || in_family id flags.family) && not (is_deferred id deferred)

  -- main, from the three lists.
  unfoldable pub report : Flags → List String → List String → List (String × String) → Report
  unfolding in_scope any_where select_where
  report flags rtm_ids deferred covered =
      let missing =
        m.sort_strings (
          select_where (λ id. in_scope flags deferred id && not (is_covered id covered)) rtm_ids) in
      let total = length (select_where (in_scope flags deferred) rtm_ids) in
      record {
        missing = missing;
        covered = total - length missing;
        total = total;
        exit_code = if not (length missing == 0) && flags.strict then 1 else 0;
      }

  abbrev deferred_ids : DeferredFile → Option (List String)
  deferred_ids DeferredFile.absent = some []
  deferred_ids DeferredFile.unreadable = none
  deferred_ids (DeferredFile.lines_of ls) = some (parse_deferred ls)

  -- The exit status without a report.
  abbrev failed : Report
  failed = record { missing = []; covered = 0; total = 0; exit_code = 2 }

  abbrev reported :
      Flags → Option (List String) → Option (List String) → Option (List (String × String)) → Report
  reported flags (some rtm) (some deferred) (some covered) =
      report flags (parse_rtm rtm) deferred covered
  reported flags _ _ _ = failed

  -- main
  unfoldable pub check : Flags → Opened → DeferredFile → List Opened → Report
  unfolding parse_rtm parse_deferred scan_tests report
  check flags rtm deferred tests = reported flags rtm (deferred_ids deferred) (scan_tests tests)
