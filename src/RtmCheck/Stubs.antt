-- ===== src/RtmCheck/Stubs.antt =====
-- What a test function in a file contributes.
use yop_pms.Prelude.{
  ℕ, ◌+◌, ◌<◌, ◌≡◌, refl, ◌∙◌, ap, String, Bool, true, false, not, ◌&&◌, ◌||◌, none, some, List, [],
  ◌∷◌, ◌++◌, map, leb, if◌then◌else◌, any_where, arith, lt→ltb,
}
use yop_pms.RtmCheck.Braces.{opened, closed}
use yop_pms.RtmCheck.{
  Scanner, Block, covers, ids_of, is_work, begin_block, outside, with_line, starts, inside,
  scan_line, scan_lines,
}

-- The braces are balanced for the first time at the last of the lines.
unfoldable pub ends_at_last : ℕ → ℕ → List String → Bool
ends_at_last opens closes [] = false
ends_at_last opens closes (line ∷ []) = leb (opens + opened line) (closes + closed line)
ends_at_last opens closes (line ∷ next ∷ lines) =
    not (leb (opens + opened line) (closes + closed line))
    && ends_at_last (opens + opened line) (closes + closed line) (next ∷ lines)

module _ (m : Scanner) where
  abbrev does_work : String → Bool
  does_work line = not (m.is_skip line) && is_work m line

  -- What a test covers, by the lines of its comment and its body: nothing if a line skips and none works, and else
  -- every ID that stands there.
  unfoldable pub contribution : String → List String → List String → List (String × String)
  unfolding any_where is_work
  contribution name comment body =
      if any_where m.is_skip body && not (any_where does_work body)
      then []
      else map (λ id. (id, name)) (ids_of m body (ids_of m comment []))

  abbrev block_covers : Block → List String → List (String × String)
  block_covers b body =
      if (any_where m.is_skip body || b.has_skip)
        && not (any_where does_work body || b.has_non_skip)
      then []
      else map (λ id. (id, b.name)) (ids_of m body b.ids)

  inside-ends :
      (line : String) (b : Block) (preceding : List String) (out : List (String × String))
      → b.started ≡ true
      → leb (b.opens + opened line) (b.closes + closed line) ≡ true
      → inside m line b (record { cur = some b; preceding = preceding; out = out })
        ≡ record { cur = none; preceding = preceding; out = out ++ covers (with_line m line b) }
  unfolding inside with_line
  inside-ends line b preceding out s e = rw (s, e) refl

  inside-goes :
      (line : String) (b : Block) (preceding : List String) (out : List (String × String))
      → leb (b.opens + opened line) (b.closes + closed line) ≡ false
      → inside m line b (record { cur = some b; preceding = preceding; out = out }) ≡ record {
        cur = some (starts m line (with_line m line b));
        preceding = preceding;
        out = out;
      }
  unfolding inside with_line
  inside-goes line b preceding out e = ground (arith, e)

  covers_one :
      (line : String) (b : Block) → covers (with_line m line b) ≡ block_covers b (line ∷ [])
  unfolding covers with_line any_where
  covers_one line b = ground arith

  covers_more :
      (line : String) (b : Block) (body : List String)
      → block_covers (starts m line (with_line m line b)) body ≡ block_covers b (line ∷ body)
  unfolding with_line any_where
  covers_more line b body = ground arith

  step-started :
      (line : String) (b : Block)
      → b.started ≡ true
      → (starts m line (with_line m line b)).started ≡ true
  unfolding with_line
  step-started line b h = ground (arith, h)

  step-ends :
      (line : String) (b : Block) (lines : List String)
      → ends_at_last (b.opens + opened line) (b.closes + closed line) lines ≡ true
      → ends_at_last
          (starts m line (with_line m line b)).opens
          (starts m line (with_line m line b)).closes
          lines
        ≡ true
  unfolding with_line
  step-ends line b lines h = h

  inside-block :
      (b : Block) (body rest preceding : List String) (out : List (String × String))
      → b.started ≡ true
      → ends_at_last b.opens b.closes body ≡ true
      → scan_lines m (body ++ rest) (record { cur = some b; preceding = preceding; out = out })
        ≡ scan_lines m rest
            (record { cur = none; preceding = preceding; out = out ++ block_covers b body })
  unfolding scan_lines scan_line ends_at_last
  inside-block b [] rest preceding out s e = cc
  inside-block b (line ∷ []) rest preceding out s e = ap (scan_lines m rest) (
      inside-ends line b preceding out s e
      ∙ ap (λ c. record { cur = none; preceding = preceding; out = out ++ c }) (covers_one line b))
  inside-block b (line ∷ next ∷ body) rest preceding out s e =
      ap (scan_lines m (next ∷ body ++ rest)) (inside-goes line b preceding out (ground (arith, e)))
      ∙ inside-block (starts m line (with_line m line b)) (next ∷ body) rest preceding out
          (step-started line b s) (step-ends line b (next ∷ body) (ground (arith, e)))
      ∙ ap (λ c. scan_lines m rest (record { cur = none; preceding = preceding; out = out ++ c }))
          (covers_more line b (next ∷ body))

  contribution-block :
      (name decl : String) (comment body : List String)
      → block_covers (begin_block m name decl comment) body ≡ contribution name comment body
  unfolding begin_block contribution
  contribution-block name decl comment body = ground arith

  -- A test function in a file, from outside of any other: the scan goes on behind it with what the test covers, by
  -- its comment and its body. The braces of its declaration and its body are balanced for the first time at the
  -- end of the body.
  pub scan_lines-test :
      (name decl : String) (body rest comment : List String) (out : List (String × String))
      → m.test_name decl ≡ some name
      → 0 < opened decl
      → ends_at_last (opened decl) (closed decl) body ≡ true
      → scan_lines m (decl ∷ body ++ rest) (record { cur = none; preceding = comment; out = out })
        ≡ scan_lines m rest
            (record { cur = none; preceding = []; out = out ++ contribution name comment body })
  unfolding scan_lines scan_line outside begin_block contribution
  scan_lines-test name decl body rest comment out n o e =
      ap
        (λ t.
          scan_lines m (body ++ rest)
            (outside m decl t (record { cur = none; preceding = comment; out = out })))
        n
      ∙ inside-block (begin_block m name decl comment) body rest [] out (lt→ltb 0 (opened decl) o) e
      ∙ ap (λ c. scan_lines m rest (record { cur = none; preceding = []; out = out ++ c }))
          (contribution-block name decl comment body)
