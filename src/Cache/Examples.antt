-- ===== src/Cache/Examples.antt =====
-- A table as the server, its scans, and a notification.
use Prim.Native.String.{◌++◌ as append, len, slice}
use text.Mathlib.Text.{◌==◌ as str_eq, starts_with, find?}
use text.Mathlib.TextEquality.{eq_iff}
use text.Mathlib.TextPositions.{eq_refl}
use yop_pms.Prelude.{
  ℕ, ◌+◌, ◌-◌, ◌≤◌, ◌<◌, ◌≡◌, refl, ◌∙◌, String, Bool, true, false, ◌&&◌, Option, none, some, List,
  [], ◌∷◌, leb, if◌then◌else◌, select_where, delete_where, is_none, arith, ◌↔◌, inl, inr,
  Bool-cases,
}
use yop_pms.Prelude.Dict.{Dict, lookup, keys, modify, lookup-modify, contains_text}
use yop_pms.ConstraintSync.Written.{lookup-absent}
use yop_pms.Cache.{Server, IsServer, Codec, Round, get_or_set, get_value}
use yop_pms.Cache.Invalidation.{
  Payload, Change, Dates, is_overlap, planner_key_overlaps, on_reservation_change,
  parse_reservation_change,
}
use yop_pms.Cache.Evictions.{scanned, all_answered, contains-select}
use yop_pms.Cache.Described.{Evicted, Scans, is_availability_of}
use yop_pms.Cache.Changes.{on_reservation_change-get, planner_key_overlaps-shares}
use yop_pms.Cache.ReadThrough.{get_or_set-loads}

abbrev table : Server String (Dict String)
table = record {
  get = lookup;
  set = λ k v ttl r. modify k v (λ old. v) r;
  del = λ ks r. delete_where (λ e. contains_text e.0 ks) r;
}

lookup-delete :
    (k : String) (ks : List String) (r : Dict String)
    → lookup k (delete_where (λ e. contains_text e.0 ks) r)
      ≡ (if contains_text k ks then none else lookup k r)
unfolding lookup delete_where
lookup-delete k ks [] = ground arith
lookup-delete k ks (e ∷ r) = ground (arith, eq_iff k e.0, lookup-delete k ks r)

table-IsServer : IsServer table
table-IsServer = record {
  get-set_same = λ k v ttl r. ground (arith, eq_refl k, lookup-modify k k v (λ old. v) r);
  get-del = lookup-delete;
}

-- A pattern with at most one '*'.
abbrev matches_at : String → String → Option ℕ → Bool
matches_at p k none = str_eq p k
matches_at p k (some i) =
    let rest = slice p (i + 1) (len p) in
    if str_eq rest ""
    then starts_with k (slice p 0 i)
    else starts_with k (slice p 0 i)
      && leb (i + len rest) (len k)
      && str_eq (slice k (len k - len rest) (len k)) rest

abbrev matches : String → String → Bool
matches p k = matches_at p k (find? p "*")

abbrev dates : Dates
dates = record {
  parse = λ s.
      if str_eq s "2026-01-10"
      then some 10
      else if str_eq s "2026-01-12"
      then some 12
      else if str_eq s "2026-01-20"
      then some 20
      else none;
  format = λ d. if leb d 10 then "2026-01-10" else "2026-01-11";
}

abbrev payload : Payload
payload = record {
  operation = "UPDATE";
  property_id = "p";
  record_id = "r";
  check_in_date = "2026-01-10";
  check_out_date = "2026-01-12";
  table = "reservations";
}

abbrev change : Change
change = record { payload = payload; check_in = 10; check_out = 12 }

abbrev store : Dict String
store =
    ("yop:availability:p:rt:2026-01-11", "3")
    ∷ ("yop:availability:p:rt:2026-01-12", "4")
    ∷ ("yop:planner:p:2026-01-10:2026-01-20", "x")
    ∷ ("yop:planner:q:2026-01-10:2026-01-20", "y")
    ∷ []

-- One page for each pattern.
abbrev script : String → List Round
script p = record { page = some (select_where (matches p) (keys store), 0); deletes = true } ∷ []

script-finds :
    (p k : String)
    → is_none (lookup k store) ≡ false
    → contains_text k (scanned (script p)) ≡ matches p k
unfolding scanned
script-finds p k h = elim (Bool-cases (contains_text k (keys store))) [
  | inl c ↦ ground (arith, c, contains-select (matches p) k (keys store))
  | inr c ↦ ground (arith, h, lookup-absent k store c)
]

script-answers : (p : String) → all_answered (script p) ≡ true
unfolding all_answered
script-answers p = refl

abbrev night_of : ℕ → String
night_of d = append "yop:availability:" (append "p" (append ":*:" (dates.format d)))

night-frames : (d : ℕ) (k : String) → matches (night_of d) k ≡ is_availability_of dates "p" d k
night-frames d k = elim (Bool-cases (leb d 10)) [ inl l ↦ rw l refl | inr l ↦ rw l refl ]

script-Scans : Scans dates lookup script "p" "r" store
unfolding scanned
script-Scans = record {
  nights = λ d k h. script-finds (night_of d) k h ∙ night-frames d k;
  entry = λ k h. script-finds "yop:reservation:r" k h;
  planner = λ k h. script-finds "yop:planner:p:*" k h;
}

on_reservation_change-get_example :
    (Evicted dates change "yop:planner:p:2026-01-10:2026-01-20"
      → lookup "yop:planner:p:2026-01-10:2026-01-20"
          ((on_reservation_change dates table script (some payload) store).1)
        ≡ none)
    × (¬ Evicted dates change "yop:planner:p:2026-01-10:2026-01-20"
        → lookup "yop:planner:p:2026-01-10:2026-01-20"
            ((on_reservation_change dates table script (some payload) store).1)
          ≡ lookup "yop:planner:p:2026-01-10:2026-01-20" store)
unfolding parse_reservation_change
on_reservation_change-get_example =
    on_reservation_change-get dates table table-IsServer script script-answers (some payload) change
      store refl script-Scans "yop:planner:p:2026-01-10:2026-01-20"

left :
    keys ((on_reservation_change dates table script (some payload) store).1)
    ≡ "yop:availability:p:rt:2026-01-12" ∷ "yop:planner:q:2026-01-10:2026-01-20" ∷ []
unfolding on_reservation_change keys select_where delete_where
left = refl

planner_key_overlaps-shares_example :
    (is_overlap (planner_key_overlaps dates "yop:planner:p:2026-01-10:2026-01-20" "p" 10 12) ≡ true)
    ↔ ((d : ℕ) × (10 ≤ d) × (d < 12) × (10 ≤ d) × (d < 20))
planner_key_overlaps-shares_example =
    planner_key_overlaps-shares dates "yop:planner:p:2026-01-10:2026-01-20" "p" 10 12 10 20 10 refl
      refl refl refl (omega arith) (omega arith)

abbrev codec : Codec ℕ String
codec = record {
  marshal = λ n. some "7";
  unmarshal = λ v dst. if str_eq v "7" then (7, true) else (dst, false);
}

get_or_set-loads_example :
    ((get_or_set table codec "yop:" false true "k" 0 60 (some 7) []).0 ≡ (7, true))
    × (false ≡ false
        → (get_or_set table codec "yop:" false true "k" 0 60 (some 7) []).0 ≡ (7, true))
    × (true ≡ true
        → (dst b : ℕ) (later : Option ℕ) (written : Bool) (ttl : ℕ)
        → codec.unmarshal "7" dst ≡ (b, true)
        → get_or_set table codec "yop:" true written "k" dst ttl later
            ((get_or_set table codec "yop:" false true "k" 0 60 (some 7) []).1)
          ≡ ((b, true), (get_or_set table codec "yop:" false true "k" 0 60 (some 7) []).1))
unfolding get_value
get_or_set-loads_example =
    get_or_set-loads table table-IsServer codec "yop:" false true "k" 0 7 "7" 60 [] refl refl
