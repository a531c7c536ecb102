-- ===== src/RtmCheck/Counts.antt =====
-- What the report of the tool says of the requirements.
use text.Mathlib.TextEquality.{eq_iff}
use mathlib.Core.List.{Permᴰ}
use yop_pms.Prelude.{
  ◌+◌, ◌≤◌, ◌≡◌, refl, ◌∙◌, String, Bool, true, not, ◌&&◌, ◌||◌, some, List, [], ◌∷◌, ◌==◌,
  if◌then◌else◌, length, any_where, select_where, arith,
}
use yop_pms.Prelude.Dict.{contains_text}
use yop_pms.RtmCheck.{Scanner}
use yop_pms.RtmCheck.Report.{
  Opened, Flags, DeferredFile, unseen, all_ids, parse_rtm, parse_deferred, scan_tests, in_scope,
  is_covered, report, check,
}

length-perm : {xs ys : List String} → Permᴰ xs ys → length xs ≡ length ys
length-perm Permᴰ.nil = refl
length-perm (Permᴰ.cons e d) = omega (arith, length-perm d)
length-perm (Permᴰ.swap e f) = refl
length-perm (Permᴰ.trans d f) = length-perm d ∙ length-perm f

any_where-perm :
    (p : String → Bool) {xs ys : List String} → Permᴰ xs ys → any_where p xs ≡ any_where p ys
unfolding any_where
any_where-perm p Permᴰ.nil = refl
any_where-perm p (Permᴰ.cons e d) = rw e (ground (arith, any_where-perm p d))
any_where-perm p (Permᴰ.swap e f) = rw (e, f) (ground arith)
any_where-perm p (Permᴰ.trans d f) = any_where-perm p d ∙ any_where-perm p f

contains-any :
    (p : String → Bool) (id : String) (seen : List String)
    → contains_text id seen ≡ true
    → p id ≡ true
    → any_where p seen ≡ true
unfolding any_where
contains-any p id [] c h = cc
contains-any p id (s ∷ seen) c h = ground (arith, c, h, eq_iff id s, contains-any p id seen)

any_where-unseen :
    (p : String → Bool) (seen ids : List String)
    → (any_where p seen || any_where p (unseen seen ids)) ≡ (any_where p seen || any_where p ids)
unfolding any_where unseen
any_where-unseen p seen [] = refl
any_where-unseen p seen (id ∷ ids) =
    ground (
      arith,
      contains-any p id seen,
      any_where-unseen p seen ids,
      any_where-unseen p (id ∷ seen) ids,
    )

-- A selection is empty exactly if no element meets its condition.
select-none :
    (p : String → Bool) (xs : List String)
    → (length (select_where p xs) == 0) ≡ not (any_where p xs)
unfolding select_where any_where
select-none p [] = refl
select-none p (x ∷ xs) = ground (arith, select-none p xs)

select-le :
    (p q : String → Bool) (xs : List String)
    → length (select_where (λ x. p x && q x) xs) ≤ length (select_where p xs)
unfolding select_where
select-le p q [] = omega arith
select-le p q (x ∷ xs) = ground (arith, select-le p q xs)

module _ (m : Scanner) (flags : Flags) where
  abbrev pub is_uncovered : List String → List (String × String) → String → Bool
  is_uncovered deferred covered id = in_scope m flags deferred id && not (is_covered id covered)

module _ (m : Scanner) (sorts : (ks : List String) → Permᴰ (m.sort_strings ks) ks)
    (flags : Flags) where
  any_where-parse_rtm :
      (p : String → Bool) (lines : List String)
      → any_where p (parse_rtm m lines) ≡ any_where p (all_ids m lines)
  unfolding parse_rtm any_where
  any_where-parse_rtm p lines =
      any_where-perm p (sorts (unseen [] (all_ids m lines)))
      ∙ any_where-unseen p [] (all_ids m lines)

  report-agrees :
      (ids deferred : List String) (covered : List (String × String))
      → ((report m flags ids deferred covered).covered
            + length (report m flags ids deferred covered).missing
          ≡ (report m flags ids deferred covered).total)
        × ((report m flags ids deferred covered).exit_code ≡ (
            if any_where (is_uncovered m flags deferred covered) ids && flags.strict then 1 else 0))
  unfolding report
  report-agrees ids deferred covered =
      let l = length-perm (sorts (select_where (is_uncovered m flags deferred covered) ids)) in
      (
        omega (
          arith,
          l,
          select-le (in_scope m flags deferred) (λ id. not (is_covered id covered)) ids,
        ),
        ground (arith, l, select-none (is_uncovered m flags deferred covered) ids),
      )

  -- The covered requirements and the missing ones make up the total; and the tool fails exactly if it is
  -- strict and some ID in the document, of the family that is asked for and not deferred, stands in no test that
  -- counts. All files can be read.
  pub check-agrees :
      (rtm deferred : List String) (tests : List Opened) (covered : List (String × String))
      → scan_tests m tests ≡ some covered
      → ((check m flags (some rtm) (DeferredFile.lines_of deferred) tests).covered
            + length (check m flags (some rtm) (DeferredFile.lines_of deferred) tests).missing
          ≡ (check m flags (some rtm) (DeferredFile.lines_of deferred) tests).total)
        × ((check m flags (some rtm) (DeferredFile.lines_of deferred) tests).exit_code ≡ (
            if any_where (is_uncovered m flags (parse_deferred m deferred) covered) (all_ids m rtm)
              && flags.strict
            then 1
            else 0))
  unfolding check
  check-agrees rtm deferred tests covered e = rw e (
      ground (
        arith,
        report-agrees (parse_rtm m rtm) (parse_deferred m deferred) covered,
        any_where-parse_rtm (is_uncovered m flags (parse_deferred m deferred) covered) rtm,
      ))
