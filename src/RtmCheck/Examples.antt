-- ===== src/RtmCheck/Examples.antt =====
-- A document, a deferred list and a file of tests, with a scanner for their lines.
use text.Mathlib.Text.{◌==◌ as str_eq}
use mathlib.Core.List.{Permᴰ}
use yop_pms.Prelude.{
  ◌+◌, ◌≡◌, refl, String, true, ◌&&◌, none, some, List, [], ◌∷◌, ◌++◌, if◌then◌else◌, length,
  any_where, arith, ◌<◌,
}
use yop_pms.RtmCheck.{Scanner, parse_test_file, scan_lines}
use yop_pms.RtmCheck.Braces.{opened, closed}
use yop_pms.RtmCheck.Stubs.{ends_at_last, contribution, scan_lines-test}
use yop_pms.RtmCheck.Report.{Flags, DeferredFile, all_ids, parse_deferred, scan_tests, check}
use yop_pms.RtmCheck.Counts.{is_uncovered, check-agrees}

abbrev scanner : Scanner
scanner = record {
  ids_in = λ line.
      if str_eq line "// R-RES-CRUD-1"
      then "R-RES-CRUD-1" ∷ []
      else if str_eq line "run() // R-RES-CRUD-2"
      then "R-RES-CRUD-2" ∷ []
      else if str_eq line "R-RES-CRUD-1, R-RES-CRUD-2, R-RES-EDGE-1"
      then "R-RES-CRUD-1" ∷ "R-RES-CRUD-2" ∷ "R-RES-EDGE-1" ∷ []
      else [];
  test_name = λ line.
      if str_eq line "func TestStub(t *testing.T) {"
      then some "TestStub"
      else if str_eq line "func TestRun(t *testing.T) {"
      then some "TestRun"
      else if str_eq line "func TestLine(t *testing.T) { t.Skip() }"
      then some "TestLine"
      else none;
  is_skip = λ line. str_eq line "t.Skip()";
  trim_space = λ line. line;
  to_upper = λ s. s;
  sort_strings = λ ids. ids;
}

perm_refl : (l : List String) → Permᴰ l l
perm_refl [] = Permᴰ.nil
perm_refl (x ∷ xs) = Permᴰ.cons refl (perm_refl xs)

abbrev stub_body : List String
stub_body = "t.Skip()" ∷ "}" ∷ []

abbrev run_file : List String
run_file = "" ∷ "func TestRun(t *testing.T) {" ∷ "run() // R-RES-CRUD-2" ∷ "}" ∷ []

abbrev test_file : List String
test_file = "// R-RES-CRUD-1" ∷ "func TestStub(t *testing.T) {" ∷ "t.Skip()" ∷ "}" ∷ run_file

abbrev rtm : List String
rtm =
    "# title" ∷ "R-RES-CRUD-1, R-RES-CRUD-2, R-RES-EDGE-1"
    ∷ "R-RES-CRUD-1, R-RES-CRUD-2, R-RES-EDGE-1" ∷ []

abbrev deferred : List String
deferred = "# later" ∷ "R-RES-EDGE-* # not yet" ∷ []

abbrev flags : Flags
flags = record { family = ""; strict = true }

scanned : parse_test_file scanner test_file ≡ ("R-RES-CRUD-2", "TestRun") ∷ []
unfolding parse_test_file
scanned = refl

-- A stub that is written on one line counts as a test.
one_line :
    parse_test_file scanner
      ("// R-RES-CRUD-1" ∷ "func TestLine(t *testing.T) { t.Skip() }" ∷ "" ∷ run_file)
    ≡ ("R-RES-CRUD-1", "TestLine") ∷ ("R-RES-CRUD-2", "TestRun") ∷ []
unfolding parse_test_file
one_line = refl

files_scanned : scan_tests scanner (some test_file ∷ []) ≡ some (("R-RES-CRUD-2", "TestRun") ∷ [])
unfolding scan_tests
files_scanned = refl

stub_opens : 0 < opened "func TestStub(t *testing.T) {"
unfolding opened
stub_opens = omega arith

stub_ends :
    ends_at_last
      (opened "func TestStub(t *testing.T) {")
      (closed "func TestStub(t *testing.T) {")
      stub_body
    ≡ true
unfolding ends_at_last opened closed
stub_ends = refl

scan_lines-test_example :
    scan_lines scanner
      ("func TestStub(t *testing.T) {" ∷ stub_body ++ run_file)
      (record { cur = none; preceding = "// R-RES-CRUD-1" ∷ []; out = [] })
    ≡ scan_lines scanner run_file (record {
      cur = none;
      preceding = [];
      out = contribution scanner "TestStub" ("// R-RES-CRUD-1" ∷ []) stub_body;
    })
scan_lines-test_example =
    scan_lines-test scanner "TestStub" "func TestStub(t *testing.T) {" stub_body run_file
      ("// R-RES-CRUD-1" ∷ []) [] refl stub_opens stub_ends

check-agrees_example :
    ((check scanner flags (some rtm) (DeferredFile.lines_of deferred) (some test_file ∷ [])).covered
        + length
            (check scanner flags
              (some rtm)
              (DeferredFile.lines_of deferred)
              (some test_file ∷ [])).missing
      ≡ (check scanner flags
          (some rtm)
          (DeferredFile.lines_of deferred)
          (some test_file ∷ [])).total)
    × ((check scanner flags
          (some rtm)
          (DeferredFile.lines_of deferred)
          (some test_file ∷ [])).exit_code
        ≡ (if any_where
                (is_uncovered scanner flags
                  (parse_deferred scanner deferred)
                  (("R-RES-CRUD-2", "TestRun") ∷ []))
                (all_ids scanner rtm)
              && true
            then 1
            else 0))
check-agrees_example =
    check-agrees scanner perm_refl flags rtm deferred (some test_file ∷ [])
      (("R-RES-CRUD-2", "TestRun") ∷ []) files_scanned

fails :
    (check scanner flags
      (some rtm)
      (DeferredFile.lines_of deferred)
      (some test_file ∷ [])).exit_code
    ≡ 1
unfolding check
fails = refl
