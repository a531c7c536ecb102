-- ===== src/Booking/Outcome/Envelope.antt =====
-- `computeEnvelope` of internal/booking/service_create.go.
use yop_pms.Prelude.{
  ℕ, suc, ◌≤◌, ◌≡◌, ◌∙◌, refl, Bool, true, false, ◌||◌, List, [], ◌∷◌, ltb, ◌==◌, if◌then◌else◌,
  any_where, arith,
}
use yop_pms.Calendar.{Stay}
use yop_pms.Booking.Inventory.{envelope_from, envelope_of}

-- Whether a stay leaves the envelope at one of its ends.
abbrev pub leaves : Stay → Stay → Bool
leaves e s = ltb s.lower e.lower || ltb e.upper s.upper

-- The envelope after the next stay, which is not the first.
abbrev widened : Stay → Stay → Stay
widened e s = record {
  lower = if ltb s.lower e.lower then s.lower else e.lower;
  upper = if ltb e.upper s.upper then s.upper else e.upper;
}

later_index : (i : ℕ) → (suc i == 0) ≡ false
later_index i = ground arith

from_step :
    (i : ℕ) (e s : Stay) (stays : List Stay)
    → envelope_from (suc i) e (s ∷ stays) ≡ envelope_from (suc (suc i)) (widened e s) stays
unfolding envelope_from
from_step i e s stays = rw (later_index i) refl

from_wider :
    (i : ℕ) (e r : Stay) (stays : List Stay)
    → r ≡ envelope_from (suc i) e stays
    → (r.lower ≤ e.lower) × (e.upper ≤ r.upper)
unfolding envelope_from
from_wider i e r [] h = ground arith
from_wider i e r (s ∷ stays) h =
    ground (arith, from_wider (suc i) (widened e s) r stays (h ∙ from_step i e s stays))

from_covers :
    (i : ℕ) (e r : Stay) (stays : List Stay)
    → r ≡ envelope_from (suc i) e stays
    → any_where (leaves r) stays ≡ false
unfolding any_where
from_covers i e r [] h = refl
from_covers i e r (s ∷ stays) h = ground (
  arith,
  from_covers (suc i) (widened e s) r stays (h ∙ from_step i e s stays),
  from_wider (suc i) (widened e s) r stays (h ∙ from_step i e s stays),
)

from_tight :
    (i : ℕ) (e r : Stay) (stays : List Stay)
    → r ≡ envelope_from (suc i) e stays
    → (((r.lower == e.lower) || any_where (λ t. r.lower == t.lower) stays) ≡ true)
      × (((r.upper == e.upper) || any_where (λ t. r.upper == t.upper) stays) ≡ true)
unfolding envelope_from any_where
from_tight i e r [] h = ground arith
from_tight i e r (s ∷ stays) h =
    ground (arith, from_tight (suc i) (widened e s) r stays (h ∙ from_step i e s stays))

first_stay : (s : Stay) (stays : List Stay) → envelope_of (s ∷ stays) ≡ envelope_from 1 s stays
unfolding envelope_of envelope_from
first_stay s stays = refl

-- The envelope of stays, of which there is one at least, is the least that covers them: none begins
-- before it or ends after it, one begins where it begins, and one ends where it ends.
pub envelope_of-least :
    (s : Stay) (stays : List Stay)
    → (any_where (leaves (envelope_of (s ∷ stays))) (s ∷ stays) ≡ false)
      × (any_where (λ t. (envelope_of (s ∷ stays)).lower == t.lower) (s ∷ stays) ≡ true)
      × (any_where (λ t. (envelope_of (s ∷ stays)).upper == t.upper) (s ∷ stays) ≡ true)
unfolding any_where
envelope_of-least s stays =
    let h = first_stay s stays in
    ground (
      arith,
      from_covers 0 s (envelope_of (s ∷ stays)) stays h,
      from_wider 0 s (envelope_of (s ∷ stays)) stays h,
      from_tight 0 s (envelope_of (s ∷ stays)) stays h,
    )
