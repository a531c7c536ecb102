-- ===== src/Calendar/Changes.antt =====
-- `RemovedDates` and `AddedDates` over the nights of two stays (internal/platform/util/time.go).
use yop_pms.Prelude.{
  ℕ, ◌≡◌, refl, ap, ◌∙◌, Bool, not, List, [], ◌∷◌, ltb, leb, ◌&&◌, select_where, arith,
}
use yop_pms.Calendar.{date_of, nights_between, in_set, removed_dates, added_dates}
use yop_pms.Calendar.Nights.{in_set-nights}

-- Whether a date is in a selection by date.
in_set-select :
    (x : ℕ) (keep : ℕ → Bool) (dates : List ℕ)
    → ((y : ℕ) → date_of y ≡ date_of x → keep y ≡ keep x)
    → in_set x (select_where keep dates) ≡ (in_set x dates && keep x)
unfolding in_set select_where
in_set-select x keep [] h = refl
in_set-select x keep (y ∷ dates) h = ground (arith, in_set-select x keep dates h, h y)

in_set-date : (x y : ℕ) (dates : List ℕ) → date_of y ≡ date_of x → in_set y dates ≡ in_set x dates
unfolding in_set
in_set-date x y [] h = refl
in_set-date x y (d ∷ dates) h = ground (arith, in_set-date x y dates h)

pub in_set-removed :
    (x : ℕ) (old new : List ℕ)
    → in_set x (removed_dates old new) ≡ (in_set x old && not (in_set x new))
unfolding removed_dates
in_set-removed x old new =
    in_set-select x (λ d. not (in_set d new)) old (λ y e. ap not (in_set-date x y new e))

pub in_set-added :
    (x : ℕ) (old new : List ℕ)
    → in_set x (added_dates old new) ≡ (in_set x new && not (in_set x old))
unfolding added_dates
in_set-added x old new =
    in_set-select x (λ d. not (in_set d old)) new (λ y e. ap not (in_set-date x y old e))

-- For a change of stay, a date is removed exactly if it is in the old stay and not in the new one,
-- and added exactly if it is in the new stay and not in the old one, by the dates of the four ends.
pub changes_exact :
    (x a d a' d' : ℕ)
    → (in_set x (removed_dates (nights_between a d) (nights_between a' d')) ≡ (
        leb (date_of a) (date_of x)
        && ltb (date_of x) (date_of d)
        && not (leb (date_of a') (date_of x) && ltb (date_of x) (date_of d'))))
      × (in_set x (added_dates (nights_between a d) (nights_between a' d')) ≡ (
          leb (date_of a') (date_of x)
          && ltb (date_of x) (date_of d')
          && not (leb (date_of a) (date_of x) && ltb (date_of x) (date_of d))))
changes_exact x a d a' d' = (
  in_set-removed x (nights_between a d) (nights_between a' d')
      ∙ ground (arith, in_set-nights x a d, in_set-nights x a' d'),
  in_set-added x (nights_between a d) (nights_between a' d')
      ∙ ground (arith, in_set-nights x a d, in_set-nights x a' d'),
)
