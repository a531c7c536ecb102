-- ===== src/RtmCheck/Braces.antt =====
-- The braces of a line: strings.Count(line, "{") and strings.Count(line, "}").
use Prim.Native.String.{String, [], ◌∷◌}
use Prim.Native.Char.{code}
use yop_pms.Prelude.{ℕ, suc, ◌==◌, if◌then◌else◌}

abbrev occurrences : ℕ → String → ℕ
occurrences c [] = 0
occurrences c (d ∷ s) = let n = occurrences c s in if code d == c then suc n else n

unfoldable pub opened : String → ℕ
opened s = occurrences 123 s

unfoldable pub closed : String → ℕ
closed s = occurrences 125 s
