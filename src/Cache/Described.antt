-- ===== src/Cache/Described.antt =====
-- What a change of a reservation is to evict from the cache, by the keys' texts (internal/platform/cache/invalidation.go),
-- and the scans that look for them.
use Prim.Native.String.{◌++◌ as append, len, slice}
use text.Mathlib.Text.{◌==◌ as str_eq, starts_with, find?}
use yop_pms.Prelude.{
  ℕ, ◌+◌, ◌-◌, ◌≤◌, ◌<◌, ◌≡◌, ◌⊎◌, String, Bool, true, false, ◌&&◌, Option, some, List, leb,
  is_none,
}
use yop_pms.Prelude.Dict.{contains_text}
use yop_pms.Cache.{Round}
use yop_pms.Cache.Invalidation.{Change, Dates}
use yop_pms.Cache.Evictions.{scanned}

-- A key that begins with the one text and ends with the other, with anything between them.
abbrev pub frames : String → String → String → Bool
frames before after k =
    starts_with k before
    && leb (len before + len after) (len k)
    && str_eq (slice k (len k - len after) (len k)) after

module _ (dates : Dates) where
  -- The availability of a property for a night, for some room type.
  abbrev pub is_availability_of : String → ℕ → String → Bool
  is_availability_of property_id d k =
      frames (append "yop:availability:" (append property_id ":")) (append ":" (dates.format d)) k

  -- A planner's range of a property, from one day up to another.
  abbrev pub IsRange : String → ℕ → ℕ → String → Type 0
  IsRange property_id s e k =
      let prefix = append "yop:planner:" (append property_id ":") in
      let rest = slice k (len prefix) (len k) in
      (starts_with k prefix ≡ true)
      × ((i : ℕ) × (find? rest ":" ≡ some i)
          × (dates.parse (slice rest 0 i) ≡ some s)
          × (dates.parse (slice rest (i + 1) (len rest)) ≡ some e))

  -- What a change is to evict: the availability of the nights of its stay for every room type, its reservation,
  -- and the planner's ranges that begin before the stay ends and end after it begins.
  abbrev pub Evicted : Change → String → Type 0
  Evicted change k =
      ((d : ℕ) × (change.check_in ≤ d)
        × (d < change.check_out)
        × (is_availability_of change.payload.property_id d k ≡ true))
      ⊎ ((str_eq (append "yop:reservation:" change.payload.record_id) k ≡ true)
          ⊎ ((s : ℕ) × (e : ℕ) × IsRange change.payload.property_id s e k
              × (s < change.check_out)
              × (change.check_in < e)))

-- What the documentation of SCAN says of the three patterns, for texts without characters that a pattern reads
-- otherwise: of the keys that are there, it finds those that the pattern describes.
pub record Scans {V R : Type 0} (dates : Dates) (get : String → R → Option V)
    (script : String → List Round) (property_id record_id : String) (r : R) : Type 0 where
  pub nights :
      (d : ℕ) (k : String)
      → is_none (get k r) ≡ false
      → contains_text k (
          scanned (
            script
              (append "yop:availability:" (append property_id (append ":*:" (dates.format d))))))
        ≡ is_availability_of dates property_id d k
  pub entry :
      (k : String)
      → is_none (get k r) ≡ false
      → contains_text k (scanned (script (append "yop:reservation:" record_id)))
        ≡ str_eq (append "yop:reservation:" record_id) k
  pub planner :
      (k : String)
      → is_none (get k r) ≡ false
      → contains_text k
          (scanned (script (append (append "yop:planner:" (append property_id ":")) "*")))
        ≡ starts_with k (append "yop:planner:" (append property_id ":"))
