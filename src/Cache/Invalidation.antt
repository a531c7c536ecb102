-- ===== src/Cache/Invalidation.antt =====
-- internal/platform/cache/invalidation.go: what a notification of a changed reservation evicts.
use Prim.Native.String.{◌++◌ as append, len, slice}
use text.Mathlib.Text.{starts_with, find?}
use yop_pms.Prelude.{
  ℕ, zero, suc, ◌+◌, ◌-◌, String, Bool, true, false, ◌&&◌, Option, none, some, List, [], ◌∷◌, ltb,
  if◌then◌else◌,
}
use yop_pms.Cache.{Server, Round, invalidate, invalidate_if}

-- reservationChangePayload, and parsedChange, whose dates are the numbers of days.
pub record Payload : Type 0 where
  pub operation : String
  pub property_id : String
  pub record_id : String
  pub check_in_date : String
  pub check_out_date : String
  pub table : String

pub record Change : Type 0 where
  pub payload : Payload
  pub check_in : ℕ
  pub check_out : ℕ

-- Go's `time`: time.Parse and Format with the layout of a date.
pub record Dates : Type 0 where
  pub parse : String → Option ℕ
  pub format : ℕ → String

-- What plannerKeyOverlaps returns.
pub data Overlap : Type 0 where
  overlap : Bool → Overlap
  unparseable : Overlap

-- The nights of a stay: the loop from the check-in on, as many rounds as there are days to the check-out.
unfoldable pub nights_from : ℕ → ℕ → List ℕ
nights_from zero d = []
nights_from (suc n) d = d ∷ nights_from n (d + 1)

abbrev pub planner_prefix : String → String
planner_prefix property_id = append "yop:planner:" (append property_id ":")

abbrev pub is_overlap : Overlap → Bool
is_overlap (overlap b) = b
is_overlap unparseable = false

abbrev pub record_pattern : Change → String
record_pattern change = append "yop:reservation:" change.payload.record_id

abbrev pub planner_pattern : Change → String
planner_pattern change = append (planner_prefix change.payload.property_id) "*"

module _ (dates : Dates) where
  abbrev change_of : Payload → Option ℕ → Option ℕ → Option Change
  change_of p (some check_in) (some check_out) =
      some (record { payload = p; check_in = check_in; check_out = check_out })
  change_of p _ _ = none

  -- parseReservationChange, of the payload that JSON has, if it has one.
  unfoldable pub parse_reservation_change : Option Payload → Option Change
  parse_reservation_change none = none
  parse_reservation_change (some p) =
      change_of p (dates.parse p.check_in_date) (dates.parse p.check_out_date)

  abbrev overlap_of : ℕ → ℕ → Option ℕ → Option ℕ → Overlap
  overlap_of check_in check_out (some key_start) (some key_end) =
      overlap (ltb check_in key_end && ltb key_start check_out)
  overlap_of check_in check_out _ _ = unparseable

  -- strings.SplitN(rest, ":", 2), and the two dates.
  abbrev overlap_at : String → ℕ → ℕ → Option ℕ → Overlap
  overlap_at rest check_in check_out none = unparseable
  overlap_at rest check_in check_out (some i) =
      overlap_of check_in check_out (dates.parse (slice rest 0 i))
        (dates.parse (slice rest (i + 1) (len rest)))

  -- plannerKeyOverlaps
  unfoldable pub planner_key_overlaps : String → String → ℕ → ℕ → Overlap
  planner_key_overlaps key property_id check_in check_out =
      let prefix = planner_prefix property_id in
      let rest = slice key (len prefix) (len key) in
      if starts_with key prefix
      then overlap_at rest check_in check_out (find? rest ":")
      else overlap false

  abbrev pub night_pattern : Change → ℕ → String
  night_pattern change d =
      append "yop:availability:" (append change.payload.property_id (append ":*:" (dates.format d)))

  abbrev pub planner_doomed : Change → String → Bool
  planner_doomed change key =
      is_overlap
        (planner_key_overlaps key change.payload.property_id change.check_in change.check_out)

  -- `script` are the rounds of the scan for a pattern. An error of the cache is logged, and no more.
  module _ {V R : Type 0} (server : Server V R) (script : String → List Round) where
    unfoldable pub invalidate_nights : Change → List ℕ → R → R
    unfolding invalidate
    invalidate_nights change [] r = r
    invalidate_nights change (d ∷ nights) r =
        invalidate_nights change nights ((invalidate server (script (night_pattern change d)) r).1)

    -- invalidateAvailability
    unfoldable pub invalidate_availability : Change → R → R
    unfolding nights_from invalidate_nights
    invalidate_availability change r =
        let nights = nights_from (change.check_out - change.check_in) change.check_in in
        (invalidate server (script (record_pattern change)) (invalidate_nights change nights r)).1

    -- invalidatePlanner
    unfoldable pub invalidate_planner : Change → R → R
    unfolding planner_key_overlaps invalidate_if
    invalidate_planner change r =
        (invalidate_if server (planner_doomed change) (script (planner_pattern change)) r).1

    abbrev on_parsed : Option Change → R → Bool × R
    on_parsed none r = (false, r)
    on_parsed (some change) r = (true, invalidate_planner change (invalidate_availability change r))

    -- NewReservationChangeHandler: whether it succeeds, and the cache.
    unfoldable pub on_reservation_change : Option Payload → R → Bool × R
    unfolding parse_reservation_change invalidate_planner invalidate_availability
    on_reservation_change payload r = on_parsed (parse_reservation_change payload) r
